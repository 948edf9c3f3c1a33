-- ===== src/Listing/Names.antt =====
-- What a connection of the directory service, esercitazione_4/src/server.c, carries: one number, and
-- names behind it.
use lab_reti_di_calcolatori.Base.{
  Bool, true, false, not, ◌&&◌, Option, none, some, List, [], ◌∷◌, ◌++◌, map, ◌≡◌, refl, sym, ap,
  ◌∙◌, bind-eq-some, some_inj, Bool-cases, Option-cases, inl, inr, ◌⊎◌, append-nil, append_assoc,
  subst,
}
use mathlib.Core.List.{map-append}
use lab_reti_di_calcolatori.Base.Int.{ℤ, pos, negsuc}
use lab_reti_di_calcolatori.Base.CString.{Bytes, codes, strcat}
use lab_reti_di_calcolatori.Listing.{
  System, status, name, Listed, is_dot, dir_path_size, join_path, stat, list_file, list_files,
  list_opened, list_entry, list_entries, list_directory,
}

-- The state `t` has names written behind what `s` has.
abbrev Follows : Listed → Listed → Type 0
Follows s t = (names : List Bytes) × (t.written ≡ s.written ++ map name names)

Follows-refl : (s : Listed) (d : Bool) → Follows s (record s { stats_dir = d })
Follows-refl s d = ([], sym (append-nil s.written))

Follows-trans : (s t u : Listed) → Follows s t → Follows t u → Follows s u
Follows-trans s t u (a, first) (b, rest) = (
  a ++ b,
  rest
      ∙ ap (λ w. w ++ map name b) first
      ∙ append_assoc s.written (map name a) (map name b)
      ∙ ap (λ w. s.written ++ w) (sym (map-append name a b)),
)

module _ (sys : System) (nome_dir : Bytes) where
  list_file-Follows :
      (dir inner : Bytes) (s t : Listed) → list_file sys nome_dir dir inner s ≡ some t → Follows s t
  unfolding list_file
  list_file-Follows dir inner s t h =
      let (folder, _, h1) = bind-eq-some (join_path nome_dir dir) _ h in
      let (slashed, _, h2) = bind-eq-some (strcat dir_path_size folder (codes "/")) _ h1 in
      let (path, _, h3) = bind-eq-some (strcat dir_path_size slashed inner) _ h2 in
      elim (Bool-cases (not (is_dot inner) && not (stat sys path s.stats_dir))) [
        | inl found ↦ subst (Follows s) (some_inj (rw found at h3)) (inner ∷ [], refl)
        | inr other ↦
            subst (Follows s) (some_inj (rw other at h3))
              (Follows-refl s (stat sys path s.stats_dir))
      ]

  list_files-Follows :
      (dir : Bytes) (entries : List Bytes) (s t : Listed)
      → list_files sys nome_dir dir entries s ≡ some t
      → Follows s t
  unfolding list_files
  list_files-Follows dir [] s t h = subst (Follows s) (some_inj h) (Follows-refl s s.stats_dir)
  list_files-Follows dir (inner ∷ entries) s t h =
      let (u, file, rest) = bind-eq-some (list_file sys nome_dir dir inner s) _ h in
      Follows-trans s u t (list_file-Follows dir inner s u file)
        (list_files-Follows dir entries u t rest)

  list_opened-Follows :
      (dir : Bytes) (o : Option (List Bytes)) (s t : Listed)
      → list_opened sys nome_dir dir o s ≡ some t
      → Follows s t
  unfolding list_opened
  list_opened-Follows dir none s t h = cc
  list_opened-Follows dir (some entries) s t h = list_files-Follows dir entries s t h

  list_entry-Follows :
      (dir : Bytes) (s t : Listed) → list_entry sys nome_dir dir s ≡ some t → Follows s t
  unfolding list_entry
  list_entry-Follows dir s t h = elim (Bool-cases (is_dot dir)) [
    | inl dot ↦ subst (Follows s) (some_inj (rw dot at h)) (Follows-refl s s.stats_dir)
    | inr plain ↦
        let (path, _, h1) = bind-eq-some (join_path nome_dir dir) _ (rw plain at h) in
        let d = stat sys path s.stats_dir in
        elim (Bool-cases d) [
          | inl folder ↦
              list_opened-Follows dir (sys.opendir path) (record s { stats_dir = true }) t
                (rw folder at h1)
          | inr file ↦ subst (Follows s) (some_inj (rw file at h1)) (Follows-refl s false)
        ]
  ]

  list_entries-Follows :
      (dirs : List Bytes) (s t : Listed) → list_entries sys nome_dir dirs s ≡ some t → Follows s t
  unfolding list_entries
  list_entries-Follows [] s t h = subst (Follows s) (some_inj h) (Follows-refl s s.stats_dir)
  list_entries-Follows (dir ∷ dirs) s t h =
      let (u, entry, rest) = bind-eq-some (list_entry sys nome_dir dir s) _ h in
      Follows-trans s u t (list_entry-Follows dir s u entry) (list_entries-Follows dirs u t rest)

  -- The service writes -1 and nothing else, or 1 and names.
  pub list_directory-names :
      (stats_dir : Bool) (l : Listed)
      → list_directory sys nome_dir stats_dir ≡ some l
      → (z : ℤ) × (names : List Bytes) × (l.written ≡ status z ∷ map name names)
        × (((z ≡ negsuc 0) × (names ≡ [])) ⊎ (z ≡ pos 1))
  unfolding list_directory
  list_directory-names stats_dir l h = elim (Option-cases (sys.opendir nome_dir)) [
    | inl missing ↦
        let same = ap (λ t. t.written) (some_inj (rw (list_directory, missing) at h)) in
        (negsuc 0, [], sym same, inl (refl, refl))
    | inr (dirs, opened) ↦
        let (names, written) =
          list_entries-Follows dirs
            (record { stats_dir = stats_dir; written = status (pos 1) ∷ [] }) l
            (rw (list_directory, opened) at h) in
        (pos 1, names, written, inr refl)
  ]
