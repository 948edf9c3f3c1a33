-- ===== src/Listing/Requests.antt =====
-- What a client of the directory service is sent for the names of a connection.
use mathlib.Core.Option
use lab_reti_di_calcolatori.Base.{
  ℕ, zero, suc, ◌+◌, ◌<◌, ◌≤◌, Bool, true, Option, some, List, [], ◌∷◌, ◌++◌, map, ◌≡◌, refl, sym,
  ◌∙◌, arith, ◌>>=◌, length, length-append, length-map, All, Option-cases, inl, inr,
}
use lab_reti_di_calcolatori.Base.CString.{Bytes, read_string, read_string-terminated}
use lab_reti_di_calcolatori.Base.Stream.{Recv, byte, eof, recv_into-map, bytes-append}
use lab_reti_di_calcolatori.Listing.{System, Message, name, list_directory}
use lab_reti_di_calcolatori.Listing.Client.{messages_bytes}
use lab_reti_di_calcolatori.Listing.Dialog.{FillsArray, Whole, length-messages_bytes}
use lab_reti_di_calcolatori.Listing.Connection.{Written, serve_names, serve_child}

-- The lists for these names, one after the other, from request `k`: the directory bit that one leaves is where the
-- next begins.
abbrev pub listed_all : (ℕ → System) → ℕ → Bool → List Bytes → Option (List Message)
listed_all sys k stats_dir [] = some []
listed_all sys k stats_dir (nome ∷ nomi) = do
  l ← list_directory (sys k) nome stats_dir
  rest ← listed_all sys (k + 1) l.stats_dir nomi
  some (l.written ++ rest)

-- The child has written these messages and ended.
abbrev pub all_written : Option (List Message) → Option Written
all_written messages = Option.map (λ ms. record { messages = ms; ended = true }) messages

pub serve_names-next :
    (rounds : ℕ) (arrived : ℕ → ℕ) (sys : ℕ → System) (k : ℕ) (nome_dir nome xs : Bytes)
    (stats_dir : Bool) (rs : List Recv) (nomi : List Bytes)
    → 256 ≤ arrived k
    → length nome_dir ≡ 256
    → length xs ≡ 256
    → read_string xs ≡ some nome
    → ((d : Bool)
        → serve_names rounds arrived sys (k + 1) xs d rs
          ≡ all_written (listed_all sys (k + 1) d nomi))
    → serve_names (suc rounds) arrived sys k nome_dir stats_dir (map byte xs ++ rs)
      ≡ all_written (listed_all sys k stats_dir (nome ∷ nomi))
unfolding serve_names
serve_names-next rounds arrived sys k nome_dir nome [] stats_dir rs nomi enough room len read
      later =
    absurd (omega arith)
serve_names-next rounds arrived sys k nome_dir nome (x ∷ xs) stats_dir rs nomi enough room len read
      later =
    rw
      (
        recv_into-map (arrived k) nome_dir (x ∷ xs) rs (len ∙ sym room) (omega arith) (omega arith),
        serve_names,
      )
      (rw read (elim (Option-cases (list_directory (sys k) nome stats_dir)) [
        | inl fault ↦ rw fault
        | inr (l, lists) ↦ rw lists (
            rw (later l.stats_dir) (elim (Option-cases (listed_all sys (k + 1) l.stats_dir nomi)) [
              | inl fault ↦ rw fault
              | inr (ms, rest) ↦ rw rest
            ]))
      ]))

serve_names-listed_all :
    (behind : Bytes → Bytes) (arrived : ℕ → ℕ) (sys : ℕ → System) (nomi : List Bytes) (rounds k : ℕ)
    (nome_dir : Bytes) (stats_dir : Bool)
    → Whole arrived
    → length nome_dir ≡ 256
    → All (FillsArray behind) nomi
    → length nomi < rounds
    → serve_names rounds arrived sys k nome_dir stats_dir
        (map byte (messages_bytes behind (map name nomi)) ++ eof ∷ [])
      ≡ all_written (listed_all sys k stats_dir nomi)
unfolding serve_names
serve_names-listed_all behind arrived sys nomi zero k nome_dir stats_dir whole room fills enough =
    absurd (omega arith)
serve_names-listed_all behind arrived sys [] (suc rounds) k nome_dir stats_dir whole room fills
      enough =
    refl
serve_names-listed_all behind arrived sys (n ∷ nomi) (suc rounds) k nome_dir stats_dir whole room
      fills enough =
    let xs = n ++ 0 ∷ behind n in
    let rest = messages_bytes behind (map name nomi) in
    rw (bytes-append xs rest (eof ∷ [])) (
      serve_names-next rounds arrived sys k nome_dir n xs stats_dir (map byte rest ++ eof ∷ []) nomi
        (whole k) room fills.0.1 (read_string-terminated n (behind n) fills.0.0)
        (λ d.
          serve_names-listed_all behind arrived sys nomi rounds (k + 1) xs d whole fills.0.1 fills.1
            (omega arith)))

-- A connection over which a client sends any number of names and then closes is served to its end: the child
-- process writes the list of each directory, in the order of the names, as if each were asked for alone,
-- but for the directory bit, which goes on from one to the next; and its run is undefined only where one
-- of the lists is. Each name stands in an array of 256 bytes and has arrived whole when it is read.
pub serve_child-listed_all :
    (behind : Bytes → Bytes) (arrived : ℕ → ℕ) (sys : ℕ → System) (nomi : List Bytes)
    (nome_dir : Bytes) (stats_dir : Bool)
    → Whole arrived
    → length nome_dir ≡ 256
    → All (FillsArray behind) nomi
    → serve_child arrived sys nome_dir stats_dir
        (map byte (messages_bytes behind (map name nomi)) ++ eof ∷ [])
      ≡ all_written (listed_all sys 0 stats_dir nomi)
serve_child-listed_all behind arrived sys nomi nome_dir stats_dir whole room fills =
    let sent = messages_bytes behind (map name nomi) in
    serve_names-listed_all behind arrived sys nomi _ 0 nome_dir stats_dir whole room fills (
      omega (
        arith,
        length-messages_bytes behind nomi,
        length-append (map byte sent) (eof ∷ []),
        length-map byte sent,
      ))
