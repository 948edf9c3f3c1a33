-- ===== src/Listing/Dialog.antt =====
-- What the client of the directory service, esercitazione_4/src/clientTCP.c, shows of what the service,
-- esercitazione_4/src/server.c, writes.
use lab_reti_di_calcolatori.Base.{
  false, ℕ, zero, suc, ◌+◌, ◌<◌, ◌≤◌, Bool, some, List, [], ◌∷◌, ◌++◌, map, ◌≡◌, refl, sym, ◌∙◌,
  arith, length, length-map, length-append, All, inl, inr, ◌⊎◌,
}
use mathlib.Core.List.{map-append}
use lab_reti_di_calcolatori.Base.Int.{ℤ, pos, negsuc}
use lab_reti_di_calcolatori.Base.CString.{Bytes, read_string, read_string-terminated, Without}
use lab_reti_di_calcolatori.Base.Stream.{Recv, byte, int_array, recv_into-map}
use lab_reti_di_calcolatori.Listing.{System, Message, status, name, Listed, list_directory}
use lab_reti_di_calcolatori.Listing.Names.{list_directory-names}
use lab_reti_di_calcolatori.Listing.Client.{messages_bytes, print_names, shown, ask_directory}

-- A name, with what its array holds behind it, takes the 256 bytes of `d_name`.
abbrev pub FillsArray : (Bytes → Bytes) → Bytes → Type 0
FillsArray behind d_name = Without 0 d_name × (length (d_name ++ 0 ∷ behind d_name) ≡ 256)

-- Each message has arrived whole when it is received.
abbrev pub Whole : (ℕ → ℕ) → Type 0
Whole arrived = (k : ℕ) → 256 ≤ arrived k

print_names-next :
    (rounds : ℕ) (arrived : ℕ → ℕ) (k : ℕ) (buff xs shown_name : Bytes) (rs : List Recv)
    (names : List Bytes)
    → 256 ≤ arrived k
    → length buff ≡ 256
    → length xs ≡ 256
    → read_string xs ≡ some shown_name
    → print_names rounds arrived (k + 1) xs rs ≡ some (record { names = names; waits = false })
    → print_names (suc rounds) arrived k buff (map byte xs ++ rs)
      ≡ some (record { names = shown_name ∷ names; waits = false })
unfolding print_names
print_names-next rounds arrived k buff [] shown_name rs names enough room len read later =
    absurd (omega arith)
print_names-next rounds arrived k buff (x ∷ xs) shown_name rs names enough room len read later =
    rw
      (
        recv_into-map (arrived k) buff (x ∷ xs) rs (len ∙ sym room) (omega arith) (omega arith),
        print_names,
      )
      (rw read (rw later))

print_names-messages_bytes :
    (behind : Bytes → Bytes) (names : List Bytes) (rounds : ℕ) (arrived : ℕ → ℕ) (k : ℕ)
    (buff : Bytes)
    → Whole arrived
    → length buff ≡ 256
    → All (FillsArray behind) names
    → length names < rounds
    → print_names rounds arrived k buff (map byte (messages_bytes behind (map name names)))
      ≡ some (record { names = names; waits = false })
unfolding print_names
print_names-messages_bytes behind names zero arrived k buff whole room fills enough =
    absurd (omega arith)
print_names-messages_bytes behind [] (suc rounds) arrived k buff whole room fills enough = refl
print_names-messages_bytes behind (n ∷ names) (suc rounds) arrived k buff whole room fills enough =
    let xs = n ++ 0 ∷ behind n in
    let rest = messages_bytes behind (map name names) in
    rw (map-append byte xs rest) (
      print_names-next rounds arrived k buff xs n (map byte rest) names (whole k) room fills.0.1
        (read_string-terminated n (behind n) fills.0.0)
        (print_names-messages_bytes behind names rounds arrived (k + 1) xs whole fills.0.1 fills.1
          (omega arith)))

pub length-messages_bytes :
    (behind : Bytes → Bytes) (names : List Bytes)
    → length names ≤ length (messages_bytes behind (map name names))
length-messages_bytes behind [] = omega arith
length-messages_bytes behind (n ∷ names) = omega (
  arith,
  length-messages_bytes behind names,
  length-append (n ++ 0 ∷ behind n) (messages_bytes behind (map name names)),
  length-append n (0 ∷ behind n),
)

-- The two numbers that the service writes.
ask_directory-found :
    (behind : Bytes → Bytes) (names : List Bytes) (arrived : ℕ → ℕ) (res buff : Bytes)
    → Whole arrived
    → length res ≡ 4
    → length buff ≡ 256
    → All (FillsArray behind) names
    → ask_directory arrived res buff
        (map byte (messages_bytes behind (status (pos 1) ∷ map name names)))
      ≡ some (
          shown (record {
            res = int_array (pos 1);
            printed = record { names = names; waits = false };
            left = [];
          }))
unfolding ask_directory
ask_directory-found behind names arrived res buff whole room long fills =
    let rest = map byte (messages_bytes behind (map name names)) in
    let enough = whole 0 in
    rw
      (recv_into-map (arrived 0) res (int_array (pos 1)) rest (sym room) (omega arith)
        (omega arith))
      (rw (
        print_names-messages_bytes behind names (length rest + 1) arrived 1 buff whole long fills (
          omega (
            arith,
            length-messages_bytes behind names,
            length-map byte (messages_bytes behind (map name names)),
          ))))

ask_directory-missing :
    (behind : Bytes → Bytes) (arrived : ℕ → ℕ) (res buff : Bytes)
    → Whole arrived
    → length res ≡ 4
    → ask_directory arrived res buff (map byte (messages_bytes behind (status (negsuc 0) ∷ [])))
      ≡ some (
          shown (record {
            res = int_array (negsuc 0);
            printed = record { names = []; waits = false };
            left = [];
          }))
unfolding ask_directory
ask_directory-missing behind arrived res buff whole room =
    let enough = whole 0 in
    rw (
      recv_into-map (arrived 0) res (int_array (negsuc 0)) [] (sym room) (omega arith)
        (omega arith))

-- The names of a message fill their array.
abbrev pub MessageFills : (Bytes → Bytes) → Message → Type 0
MessageFills behind (status z) = Unit
MessageFills behind (name n) = FillsArray behind n

names_fill :
    (behind : Bytes → Bytes) (names : List Bytes)
    → All (MessageFills behind) (map name names)
    → All (FillsArray behind) names
names_fill behind [] h = tt
names_fill behind (n ∷ names) h = (h.0, names_fill behind names h.1)

-- Whatever the system answers to the service, what it writes for a directory is a number and names,
-- and the client shows exactly these: -1 and no name, or 1 and the names, with nothing left to be
-- read. Each message has arrived whole when it is received, before `select` times out, and each name
-- stands in an array of 256 bytes.
pub ask_directory-list_directory :
    (sys : System) (nome_dir : Bytes) (stats_dir : Bool) (l : Listed) (behind : Bytes → Bytes)
    (arrived : ℕ → ℕ) (res buff : Bytes)
    → list_directory sys nome_dir stats_dir ≡ some l
    → Whole arrived
    → length res ≡ 4
    → length buff ≡ 256
    → All (MessageFills behind) l.written
    → (z : ℤ) × (names : List Bytes) × (l.written ≡ status z ∷ map name names)
      × (((z ≡ negsuc 0) × (names ≡ [])) ⊎ (z ≡ pos 1))
      × (ask_directory arrived res buff (map byte (messages_bytes behind l.written))
          ≡ some (
              shown (record {
                res = int_array z;
                printed = record { names = names; waits = false };
                left = [];
              })))
ask_directory-list_directory sys nome_dir stats_dir l behind arrived res buff h whole room long
      fills =
    let (z, names, written, result) = list_directory-names sys nome_dir stats_dir l h in
    (
      z,
      names,
      written,
      result,
      rw written (elim result [
        | inl (missing, none_named) ↦
            rw (missing, none_named) (ask_directory-missing behind arrived res buff whole room)
        | inr found ↦ rw found (
            ask_directory-found behind names arrived res buff whole room long
              (names_fill behind names (rw written at fills).1))
      ]),
    )
