-- ===== src/Listing/Tours.antt =====
-- A session of esercitazione_4/src/clientTCP.c at the child process of esercitazione_4/src/server.c.
use lab_reti_di_calcolatori.Base.{
  drop, ℕ, zero, suc, ◌+◌, ◌<◌, ◌≤◌, Bool, true, some, List, [], ◌∷◌, ◌++◌, map, ◌≡◌, refl, ap, ◌∙◌,
  arith, length, length-append, length-map, All, lt→ltb, inl, inr,
}
use lab_reti_di_calcolatori.Base.Int.{ℤ}
use lab_reti_di_calcolatori.Base.CString.{
  Bytes, Without, named, length-named, scan_word, read_string-terminated,
}
use lab_reti_di_calcolatori.Base.Stream.{
  Recv, byte, eof, int_array, int_value, length-int_array, bytes-append,
}
use lab_reti_di_calcolatori.Listing.{System, Message, status, name, Listed, list_directory}
use lab_reti_di_calcolatori.Listing.Client.{messages_bytes}
use lab_reti_di_calcolatori.Listing.Connection.{serve_names, serve_child}
use lab_reti_di_calcolatori.Listing.Dialog.{Whole, MessageFills, ask_directory-list_directory}
use lab_reti_di_calcolatori.Listing.Requests.{listed_all, all_written, serve_names-next}
use lab_reti_di_calcolatori.Listing.Session.{nome_file_size, Visit, finished, Tour, over, browse}

-- A name that the client can send.
abbrev pub IsName : Visit → Type 0
IsName v = (length v.word < nome_file_size) × Without 0 v.word

-- The arrays that the client sends, where `array` is the content of `nomeFile`.
abbrev pub arrays : Bytes → List Visit → List Bytes
arrays array [] = []
arrays array (v ∷ visits) = named v.word array ∷ arrays (named v.word array) visits

abbrev pub all_bytes : List Bytes → Bytes
all_bytes [] = []
all_bytes (xs ∷ xss) = xs ++ all_bytes xss

abbrev pub all_messages : List Listed → List Message
all_messages [] = []
all_messages (l ∷ ls) = l.written ++ all_messages ls

-- Each request is sent and answered: `ls` are what the server writes from request `k` on, and each arrives whole.
abbrev pub AreVisits : (Bytes → Bytes) → (ℕ → System) → ℕ → Bool → List Visit → List Listed → Type 0
AreVisits behind sys k d [] [] = Unit
AreVisits behind sys k d [] (l ∷ ls) = ⊥
AreVisits behind sys k d (v ∷ visits) [] = ⊥
AreVisits behind sys k d (v ∷ visits) (l ∷ ls) =
    ((v.sends ≡ true)
      × Whole v.arrived
      × (length v.buff ≡ 256)
      × (list_directory (sys k) v.word d ≡ some l)
      × All (MessageFills behind) l.written
      × (v.coming ≡ map byte (messages_bytes behind l.written)))
    × AreVisits behind sys (k + 1) l.stats_dir visits ls

-- For each list its number and its names.
abbrev pub Tells : List Listed → List (ℤ × List Bytes) → Type 0
Tells [] [] = Unit
Tells [] (p ∷ told) = ⊥
Tells (l ∷ ls) [] = ⊥
Tells (l ∷ ls) ((z, names) ∷ told) = (l.written ≡ status z ∷ map name names) × Tells ls told

listed_all-all_messages :
    (behind : Bytes → Bytes) (sys : ℕ → System) (k : ℕ) (d : Bool) (visits : List Visit)
    (ls : List Listed)
    → AreVisits behind sys k d visits ls
    → listed_all sys k d (map Visit.word visits) ≡ some (all_messages ls)
listed_all-all_messages behind sys k d [] [] h = refl
listed_all-all_messages behind sys k d [] (l ∷ ls) h = absurd h
listed_all-all_messages behind sys k d (v ∷ visits) [] h = absurd h
listed_all-all_messages behind sys k d (v ∷ visits) (l ∷ ls) ((s, w, b, lists, f, c), h) =
    rw lists (rw (listed_all-all_messages behind sys (k + 1) l.stats_dir visits ls h))

serve_names-arrays :
    (arrived : ℕ → ℕ) (sys : ℕ → System) (visits : List Visit) (rounds k : ℕ)
    (nome_dir array : Bytes) (d : Bool)
    → Whole arrived
    → length nome_dir ≡ 256
    → length array ≡ 256
    → All IsName visits
    → length visits < rounds
    → serve_names rounds arrived sys k nome_dir d
        (map byte (all_bytes (arrays array visits)) ++ eof ∷ [])
      ≡ all_written (listed_all sys k d (map Visit.word visits))
unfolding serve_names
serve_names-arrays arrived sys visits zero k nome_dir array d whole room room' ok enough =
    absurd (omega arith)
serve_names-arrays arrived sys [] (suc rounds) k nome_dir array d whole room room' ok enough = refl
serve_names-arrays arrived sys (v ∷ visits) (suc rounds) k nome_dir array d whole room room'
      ((fits, plain), ok) enough =
    let xs = named v.word array in
    let size : length xs ≡ 256 = length-named v.word array (omega arith) ∙ room' in
    let rest = all_bytes (arrays xs visits) in
    rw (bytes-append xs rest (eof ∷ [])) (
      serve_names-next rounds arrived sys k nome_dir v.word xs d (map byte rest ++ eof ∷ [])
        (map Visit.word visits) (whole k) room size (read_string-terminated v.word _ plain)
        (λ bit.
          serve_names-arrays arrived sys visits rounds (k + 1) xs xs bit whole size size ok
            (omega arith)))

browse-Tells :
    (behind : Bytes → Bytes) (sys : ℕ → System) (visits : List Visit) (ls : List Listed) (k : ℕ)
    (array res : Bytes) (d : Bool)
    → length res ≡ 4
    → All IsName visits
    → AreVisits behind sys k d visits ls
    → (t : Tour) × (browse visits array res [] ≡ some t)
      × (t.finish ≡ finished)
      × (t.asked ≡ arrays array visits)
      × Tells ls t.told
unfolding browse scan_word
browse-Tells behind sys [] [] k array res d room ok h = (over finished, refl, refl, refl, tt)
browse-Tells behind sys [] (l ∷ ls) k array res d room ok h = absurd h
browse-Tells behind sys (v ∷ visits) [] k array res d room ok h = absurd h
browse-Tells behind sys (v ∷ visits) (l ∷ ls) k array res d room ((fits, plain), ok)
      ((sends, whole, size, lists, fills, comes), h) =
    let (z, names, written, number, asks) =
      ask_directory-list_directory (sys k) v.word d l behind v.arrived res v.buff lists whole room
        size fills in
    let (t, run, ends, asked, tells) =
      browse-Tells behind sys visits ls (k + 1) (named v.word array) (int_array z) l.stats_dir
        (length-int_array z) ok h in
    let value : int_value (int_array z) ≡ z = elim number [
      | inl (missing, empty) ↦ rw missing
      | inr found ↦ rw found
    ] in
    (
      record t { asked = named v.word array ∷ t.asked; told = (z, names) ∷ t.told },
      rw (lt→ltb _ _ fits) (rw (sends, comes) (rw asks (rw run (rw value)))),
      ends,
      ap (λ xs. named v.word array ∷ xs) asked,
      (written, tells),
    )

length-arrays :
    (array : Bytes) (visits : List Visit) → length visits ≤ length (all_bytes (arrays array visits))
length-arrays array [] = omega arith
length-arrays array (v ∷ visits) =
    let xs = named v.word array in
    omega (
      arith,
      length-arrays xs visits,
      length-append xs (all_bytes (arrays xs visits)),
      length-append v.word (0 ∷ drop (length v.word + 1) array),
    )

-- A session of the client at its child process: the client sends the array of each name and shows for each the number
-- and the names that the child has written for it, to the end of the input; and from the bytes of these arrays the child
-- writes the lists that the client has shown, in order, and ends. Each name is shorter than its array; each request is
-- sent, and what the child writes for it has arrived whole before the next `select` times out, and nothing else has.
pub browse-serve_child :
    (behind : Bytes → Bytes) (arrived : ℕ → ℕ) (sys : ℕ → System) (visits : List Visit)
    (ls : List Listed) (array res nome_dir : Bytes) (stats_dir : Bool)
    → Whole arrived
    → length array ≡ 256
    → length res ≡ 4
    → length nome_dir ≡ 256
    → All IsName visits
    → AreVisits behind sys 0 stats_dir visits ls
    → (t : Tour) × (browse visits array res [] ≡ some t)
      × (t.finish ≡ finished)
      × Tells ls t.told
      × (serve_child arrived sys nome_dir stats_dir (map byte (all_bytes t.asked) ++ eof ∷ [])
          ≡ some (record { messages = all_messages ls; ended = true }))
browse-serve_child behind arrived sys visits ls array res nome_dir stats_dir whole size room size'
      ok answered =
    let (t, run, ends, asked, tells) =
      browse-Tells behind sys visits ls 0 array res stats_dir room ok answered in
    let stream : List Bytes → List Recv = λ xss. map byte (all_bytes xss) ++ eof ∷ [] in
    let sent = all_bytes (arrays array visits) in
    let served =
      serve_names-arrays arrived sys visits (length (stream (arrays array visits)) + 1) 0 nome_dir
        array stats_dir whole size' size ok
        (omega (
          arith,
          length-arrays array visits,
          length-append (map byte sent) (eof ∷ []),
          length-map byte sent,
        )) in
    (
      t,
      run,
      ends,
      tells,
      ap (λ xss. serve_child arrived sys nome_dir stats_dir (stream xss)) asked
          ∙ served
          ∙ ap all_written (listed_all-all_messages behind sys 0 stats_dir visits ls answered),
    )
