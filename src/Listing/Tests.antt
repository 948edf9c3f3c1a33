-- ===== src/Listing/Tests.antt =====
-- Runs of the directory service, and the theorems at concrete inputs.
use lab_reti_di_calcolatori.Base.{
  Bool, true, false, ◌||◌, none, some, List, [], ◌∷◌, ◌≡◌, refl, arith, if◌then◌else◌, replicate,
  length, ◌-◌, map, ◌⊎◌, ◌++◌,
}
use lab_reti_di_calcolatori.Base.Int.{ℤ, pos, negsuc}
use lab_reti_di_calcolatori.Base.CString.{Bytes, codes, str_eq}
use lab_reti_di_calcolatori.Listing.{
  System, Listed, status, name, list_directory, list_entries, list_entry, list_opened, list_files,
  list_file, join_path,
}
use lab_reti_di_calcolatori.Base.Stream.{byte, eof, int_array}
use lab_reti_di_calcolatori.Listing.Client.{shown, ask_directory, messages_bytes}
use lab_reti_di_calcolatori.Listing.Connection.{serve_child}
use lab_reti_di_calcolatori.Listing.Requests.{serve_child-listed_all}
use lab_reti_di_calcolatori.Listing.Dialog.{ask_directory-list_directory}
use lab_reti_di_calcolatori.Listing.Files.{list_directory_lem}
use lab_reti_di_calcolatori.Listing.Session.{Visit, finished, Tour, browse}
use lab_reti_di_calcolatori.Listing.Tours.{all_bytes, all_messages, Tells, browse-serve_child}
use lab_reti_di_calcolatori.Listing.Stale.{list_entries_unknown}

-- The directory "d" has the directory "d/s", with the file "x", and the file "f".
abbrev is_dir : Bytes → Bool
is_dir path = str_eq path (codes "d") || str_eq path (codes "d/s")

abbrev inside : Bytes → List Bytes
inside path =
    if str_eq path (codes "d")
    then codes "." ∷ codes "s" ∷ codes "f" ∷ []
    else codes ".." ∷ codes "x" ∷ []

abbrev system : System
system = record {
  opendir = λ path. if is_dir path then some (inside path) else none;
  stat_dir = λ path. some (is_dir path);
}

list_directory_lem_example :
    (d : Bool) × (list_directory system (codes "d") false
      ≡ some (record { stats_dir = d; written = status (pos 1) ∷ name (codes "x") ∷ [] }))
unfolding str_eq
list_directory_lem_example =
    list_directory_lem system is_dir inside (λ path. refl) (λ path dir. rw dir refl) (codes "d")
      (inside (codes "d")) false refl
      (
        (omega arith, (omega arith, (omega arith, tt))),
        (
          (omega arith, (omega arith, (omega arith, tt))),
          ((omega arith, (omega arith, (omega arith, tt))), tt),
        ),
      )

-- The array of a name is filled with zeros.
abbrev zeros : Bytes → Bytes
zeros n = replicate (255 - length n) 0

-- "d" twice, and a file between them.
abbrev asked : List Bytes
asked = codes "d" ∷ codes "f" ∷ codes "d" ∷ []

serve_child-listed_all_example :
    serve_child
      (λ k. 256)
      (λ k. system)
      (replicate 256 7)
      true
      (map byte (messages_bytes zeros (map name asked)) ++ eof ∷ [])
    ≡ some (record {
      messages =
          status (pos 1)
          ∷ name (codes "x")
          ∷ status (negsuc 0)
          ∷ status (pos 1)
          ∷ name (codes "x")
          ∷ [];
      ended = true;
    })
unfolding str_eq list_directory list_entries list_entry list_opened list_files list_file join_path
    lab_reti_di_calcolatori.Base.CString.strcat
serve_child-listed_all_example =
    serve_child-listed_all zeros (λ k. 256) (λ k. system) asked (replicate 256 7) true
      (λ k. omega arith) refl (((refl, tt), refl), (((refl, tt), refl), (((refl, tt), refl), tt)))

-- Nothing is known of any path.
abbrev unknown : System
unknown = record { opendir = λ path. none; stat_dir = λ path. none }

entries_run :
    (list_entries unknown (codes "d") (codes "l" ∷ []) (record { stats_dir = false; written = [] })
      ≡ list_entries unknown (codes "d") [] (record { stats_dir = false; written = [] }))
    × (list_entries unknown (codes "d") (codes "l" ∷ []) (record { stats_dir = true; written = [] })
        ≡ none)
unfolding str_eq
entries_run =
    list_entries_unknown unknown (codes "d") (codes "l") [] [] refl (omega arith) refl refl

abbrev listed : Listed
listed = record { stats_dir = false; written = status (pos 1) ∷ name (codes "x") ∷ [] }

listed_eq : list_directory system (codes "d") false ≡ some listed
unfolding str_eq list_directory list_entries list_entry list_opened list_files list_file join_path
    lab_reti_di_calcolatori.Base.CString.strcat
listed_eq = refl

ask_directory-list_directory_example :
    (z : ℤ) × (names : List Bytes) × (listed.written ≡ status z ∷ map name names)
    × (((z ≡ negsuc 0) × (names ≡ [])) ⊎ (z ≡ pos 1))
    × (ask_directory
          (λ k. 256)
          (replicate 4 7)
          (replicate 256 7)
          (map byte (messages_bytes zeros listed.written))
        ≡ some (
            shown (record {
              res = int_array z;
              printed = record { names = names; waits = false };
              left = [];
            })))
ask_directory-list_directory_example =
    ask_directory-list_directory system (codes "d") false listed zeros (λ k. 256) (replicate 4 7)
      (replicate 256 7) listed_eq (λ k. omega arith) refl refl (tt, (((refl, tt), refl), tt))

abbrev visit : Bytes → Listed → Visit
visit word l = record {
  word = word;
  sends = true;
  arrived = λ k. 256;
  buff = replicate 256 7;
  coming = map byte (messages_bytes zeros l.written);
}

-- Of a file there is no list.
abbrev no_list : Listed
no_list = record { stats_dir = false; written = status (negsuc 0) ∷ [] }

abbrev visits : List Visit
visits = visit (codes "d") listed ∷ visit (codes "f") no_list ∷ []

browse-serve_child_example :
    (t : Tour) × (browse visits (replicate 256 7) (replicate 4 7) [] ≡ some t)
    × (t.finish ≡ finished)
    × Tells (listed ∷ no_list ∷ []) t.told
    × (serve_child
          (λ k. 256)
          (λ k. system)
          (replicate 256 7)
          false
          (map byte (all_bytes t.asked) ++ eof ∷ [])
        ≡ some (record { messages = all_messages (listed ∷ no_list ∷ []); ended = true }))
unfolding str_eq list_directory
browse-serve_child_example =
    browse-serve_child zeros (λ k. 256) (λ k. system) visits (listed ∷ no_list ∷ [])
      (replicate 256 7) (replicate 4 7) (replicate 256 7) false (λ k. omega arith) refl refl refl
      ((omega arith, (refl, tt)), ((omega arith, (refl, tt)), tt))
      (
        (refl, (λ k. omega arith), refl, listed_eq, (tt, (((refl, tt), refl), tt)), refl),
        ((refl, (λ k. omega arith), refl, refl, (tt, tt), refl), tt),
      )
