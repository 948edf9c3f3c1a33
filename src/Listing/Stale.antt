-- ===== src/Listing/Stale.antt =====
-- An entry that `stat` does not know, as a link to nothing: `stats` still holds the entry before it.
use lab_reti_di_calcolatori.Base.{Bool, Option, ap, true, false, none, some, List, ◌∷◌, ◌≡◌, refl}
use lab_reti_di_calcolatori.Base.CString.{Bytes}
use lab_reti_di_calcolatori.Listing.{
  System, Message, is_dot, stat, list_opened, list_entry, list_entries,
}
use lab_reti_di_calcolatori.Listing.Paths.{path_of, Fits, join_path-Fits}

-- An entry, neither "." nor "..", of which neither `stat` nor `opendir` makes anything is skipped
-- where the last path that `stat` knew was no directory; where it was one, the child reads a
-- directory through a null pointer. The path of the entry fits its array.
pub list_entries_unknown :
    (sys : System) (nome_dir dir : Bytes) (dirs : List Bytes) (written : List Message)
    → is_dot dir ≡ false
    → Fits nome_dir dir
    → sys.stat_dir (path_of nome_dir dir) ≡ none
    → sys.opendir (path_of nome_dir dir) ≡ none
    → (list_entries sys nome_dir (dir ∷ dirs) (record { stats_dir = false; written = written })
        ≡ list_entries sys nome_dir dirs (record { stats_dir = false; written = written }))
      × (list_entries sys nome_dir (dir ∷ dirs) (record { stats_dir = true; written = written })
          ≡ none)
unfolding list_entries list_entry list_opened
list_entries_unknown sys nome_dir dir dirs written plain fit unknown closed =
    let joined = join_path-Fits nome_dir dir fit in
    let keeps : (b : Bool) → stat sys (path_of nome_dir dir) b ≡ b =
      λ b. ap (λ (o : Option Bool). elim o [ none ↦ b | some d ↦ d ]) unknown in
    (rw (plain, joined) (rw (keeps false) refl), rw (plain, joined) (rw (keeps true, closed) refl))
