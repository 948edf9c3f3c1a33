-- ===== src/WordsClient/Tests.antt =====
-- A run of the client at its server, and the theorem at a concrete input.
use lab_reti_di_calcolatori.Base.{
  Bool, true, false, not, Option, none, some, List, [], ◌∷◌, ◌≡◌, refl, subst, arith, if◌then◌else◌,
  Bool-cases, inl, inr, some_inj,
}
use lab_reti_di_calcolatori.Base.Int.{pos, negsuc}
use lab_reti_di_calcolatori.Base.CString.{Bytes, codes, str_eq}
use lab_reti_di_calcolatori.Words.{System}
use lab_reti_di_calcolatori.Words.Again.{IsText}
use lab_reti_di_calcolatori.Words.Request.{IsField}
use lab_reti_di_calcolatori.Datagram.Repeats.{repeated}
use lab_reti_di_calcolatori.WordsClient.{World, converse}
use lab_reti_di_calcolatori.WordsClient.Store.{Store, put, IsRename, Stores}
use lab_reti_di_calcolatori.WordsClient.Dialogue.{words_of, delete_all, converse-delete_all}

abbrev text : Bytes
text = codes "a b a"

abbrev note : Bytes
note = codes "note"

abbrev kept : Bytes
kept = codes "kept"

abbrev folder : Bytes
folder = codes "d"

abbrev is_dir : Bytes → Bool
is_dir g = str_eq g folder

abbrev store : Store
store = put note text (put kept text (λ g. none))

-- The file and the directory.
abbrev files : System
files = record {
  stat_dir = λ g.
      if str_eq g folder
      then some true
      else if str_eq g note
      then some false
      else if str_eq g kept
      then some false
      else none;
  open_file = store;
  tmp_opens = true;
}

-- The path "kept" cannot be renamed to.
abbrev renames : Bytes → Bool
renames g = not (str_eq g (codes "kept"))

abbrev replaced : Bytes → Bytes → System → System
replaced f content sys = record sys {
  open_file = λ g. if str_eq g f then some content else sys.open_file g;
  stat_dir = λ g. if str_eq g f then some false else sys.stat_dir g;
}

abbrev rename : Bytes × Bytes → System → Option System
rename (f, content) sys = if renames f then some (replaced f content sys) else none

rename-IsRename : IsRename rename renames
rename-IsRename = record {
  fails = λ f content sys no_rename. rw no_rename;
  after = replaced;
  succeeds = λ f content sys renamed. rw renamed;
  opened = λ f content g sys o. refl;
  stats = λ f content g sys o. refl;
  tmp_free = λ f content sys. refl;
}

text-IsText : IsText text
text-IsText = (ground arith, omega arith, omega arith)

files-Stores : Stores is_dir store files
files-Stores = record {
  opens = λ g o. refl;
  folder = λ g o d. rw d;
  file = λ g c o d e. elim (Bool-cases (str_eq g note)) [
    | inl same ↦ (rw (d, same), subst IsText (some_inj (rw same at e)) text-IsText)
    | inr other ↦ elim (Bool-cases (str_eq g kept)) [
      | inl same ↦
          (rw (d, other, same), subst IsText (some_inj (rw (other, same) at e)) text-IsText)
      | inr neither ↦ absurd (let e' = rw (other, neither) at e in cc)
    ]
  ];
  tmp = refl;
}

abbrev world : World
world = record { sys = files; stats_dir = true }

abbrev requests : List (Bytes × Bytes)
requests =
    (note, codes "a")
    ∷ (folder, codes "a")
    ∷ (note, codes "b")
    ∷ (kept, codes "a")
    ∷ (kept, codes "a")
    ∷ []

requests_answered :
    (delete_all is_dir renames requests store).0
    ≡ (note, pos 2) ∷ (folder, negsuc 0) ∷ (note, pos 1) ∷ (kept, pos 2) ∷ (kept, pos 2) ∷ []
unfolding str_eq
requests_answered = refl

note-IsField : IsField (note)
note-IsField = record {
  some_bytes = (ground arith);
  fits = omega arith;
  no_zero = ground arith;
  no_separator = ground arith;
}

folder-IsField : IsField (folder)
folder-IsField = record {
  some_bytes = (ground arith);
  fits = omega arith;
  no_zero = ground arith;
  no_separator = ground arith;
}

kept-IsField : IsField kept
kept-IsField = record {
  some_bytes = (ground arith);
  fits = omega arith;
  no_zero = ground arith;
  no_separator = ground arith;
}

a-IsField : IsField (codes "a")
a-IsField = record {
  some_bytes = (ground arith);
  fits = omega arith;
  no_zero = ground arith;
  no_separator = ground arith;
}

b-IsField : IsField (codes "b")
b-IsField = record {
  some_bytes = (ground arith);
  fits = omega arith;
  no_zero = ground arith;
  no_separator = ground arith;
}

converse-delete_all_example :
    let (shown, after) = delete_all is_dir renames requests store in
    (t : World) × (converse rename (λ k. repeated k) 0 (words_of requests) [] world
      ≡ some (record { shown = shown; blocked = false; world = t }))
    × Stores is_dir after t.sys
unfolding str_eq
converse-delete_all_example =
    converse-delete_all rename renames is_dir rename-IsRename (λ k. k) requests 0 store world
      (
        (note-IsField, a-IsField, refl),
        (
          (folder-IsField, a-IsField, refl),
          (
            (note-IsField, b-IsField, refl),
            ((kept-IsField, a-IsField, refl), ((kept-IsField, a-IsField, refl), tt)),
          ),
        ),
      )
      files-Stores
