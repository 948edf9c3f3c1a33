-- ===== src/Listing/Files.antt =====
-- What the directory service sends where its system calls succeed.
use lab_reti_di_calcolatori.Base.{
  Bool, true, false, not, ◌&&◌, Option, none, some, List, [], ◌∷◌, ◌++◌, if◌then◌else◌, ◌≡◌, refl,
  sym, ap, ◌∙◌, arith, length-append, append-nil, append_assoc, All, Bool-cases, inl, inr,
}
use lab_reti_di_calcolatori.Base.Int.{pos}
use lab_reti_di_calcolatori.Base.CString.{Bytes, codes, strcat_lem}
use lab_reti_di_calcolatori.Listing.{
  System, Message, status, name, Listed, is_dot, dir_path_size, stat, list_file, list_files,
  list_opened, list_entry, list_entries, list_directory,
}
use lab_reti_di_calcolatori.Listing.Paths.{path_of, Fits, join_path-Fits}

-- The system's answers on paths: which are directories, and what is in these.
module _ (sys : System) (is_dir : Bytes → Bool) (inside : Bytes → List Bytes) where
  -- The names of the entries that are no directories.
  abbrev pub files : Bytes → List Bytes → List Message
  files folder [] = []
  files folder (inner ∷ entries) =
      if not (is_dot inner) && not (is_dir (path_of folder inner))
      then name inner ∷ files folder entries
      else files folder entries

  -- The files of the subdirectories, in order.
  abbrev pub listing : Bytes → List Bytes → List Message
  listing nome_dir [] = []
  listing nome_dir (dir ∷ dirs) =
      let folder = path_of nome_dir dir in
      if not (is_dot dir) && is_dir folder
      then files folder (inside folder) ++ listing nome_dir dirs
      else listing nome_dir dirs

  -- The paths of a subdirectory and of its entries fit the array.
  abbrev pub PathsFit : Bytes → Bytes → Type 0
  PathsFit nome_dir dir =
      Fits nome_dir dir × All (Fits (path_of nome_dir dir)) (inside (path_of nome_dir dir))

  module _ (stats : (path : Bytes) → sys.stat_dir path ≡ some (is_dir path))
      (opens : (path : Bytes) → is_dir path ≡ true → sys.opendir path ≡ some (inside path)) where
    stat_known : (path : Bytes) (b : Bool) → stat sys path b ≡ is_dir path
    stat_known path b = ap (λ (o : Option Bool). elim o [ none ↦ b | some d ↦ d ]) (stats path)

    list_file_lem :
        (nome_dir dir inner : Bytes) (s : Listed)
        → Fits nome_dir dir
        → Fits (path_of nome_dir dir) inner
        → list_file sys nome_dir dir inner s
          ≡ some (record {
            stats_dir = is_dir (path_of (path_of nome_dir dir) inner);
            written = s.written ++ files (path_of nome_dir dir) (inner ∷ []);
          })
    unfolding list_file
    list_file_lem nome_dir dir inner s fit fits =
        let folder = path_of nome_dir dir in
        let l = length-append folder (codes "/") in
        rw
          (
            join_path-Fits nome_dir dir fit,
            strcat_lem dir_path_size folder (codes "/") (omega arith),
            strcat_lem dir_path_size (folder ++ codes "/") inner (omega arith),
          )
          (rw (stat_known (path_of folder inner) s.stats_dir)
            (elim (Bool-cases (not (is_dot inner) && not (is_dir (path_of folder inner)))) [
              | inl found ↦ rw found refl
              | inr other ↦ rw other (rw (append-nil s.written) refl)
            ]))

    files_step :
        (folder inner : Bytes) (entries : List Bytes)
        → files folder (inner ∷ []) ++ files folder entries ≡ files folder (inner ∷ entries)
    files_step folder inner entries =
        elim (Bool-cases (not (is_dot inner) && not (is_dir (path_of folder inner)))) [
          | inl found ↦ rw found refl
          | inr other ↦ rw other refl
        ]

    list_files_lem :
        (nome_dir dir : Bytes) (entries : List Bytes) (s : Listed)
        → Fits nome_dir dir
        → All (Fits (path_of nome_dir dir)) entries
        → (d : Bool) × (list_files sys nome_dir dir entries s
            ≡ some (record {
              stats_dir = d;
              written = s.written ++ files (path_of nome_dir dir) entries;
            }))
    unfolding list_files
    list_files_lem nome_dir dir [] s fit fits = (
      s.stats_dir,
      ap (λ w. some (record { stats_dir = s.stats_dir; written = w })) (sym (append-nil s.written)),
    )
    list_files_lem nome_dir dir (inner ∷ entries) s fit (here, fits) =
        let folder = path_of nome_dir dir in
        let (d, rest) =
          list_files_lem nome_dir dir entries
            (record {
              stats_dir = is_dir (path_of folder inner);
              written = s.written ++ files folder (inner ∷ []);
            })
            fit fits in
        let sum = append_assoc s.written (files folder (inner ∷ [])) (files folder entries) in
        (
          d,
          rw (list_file_lem nome_dir dir inner s fit here) (
              rest
              ∙ ap (λ w. some (record { stats_dir = d; written = w }))
                  (sum ∙ ap (λ w. s.written ++ w) (files_step folder inner entries))),
        )

    list_entry_lem :
        (nome_dir dir : Bytes) (s : Listed)
        → PathsFit nome_dir dir
        → (d : Bool) × (list_entry sys nome_dir dir s
            ≡ some (record { stats_dir = d; written = s.written ++ listing nome_dir (dir ∷ []) }))
    unfolding list_entry list_opened
    list_entry_lem nome_dir dir s (fit, fits) = elim (Bool-cases (is_dot dir)) [
      | inl dot ↦ (s.stats_dir, rw dot (rw (append-nil s.written) refl))
      | inr plain ↦ elim (Bool-cases (is_dir (path_of nome_dir dir))) [
        | inl folder ↦
            let path = path_of nome_dir dir in
            let (d, run) =
              list_files_lem nome_dir dir (inside path) (record s { stats_dir = true }) fit fits in
            (
              d,
              rw (plain, join_path-Fits nome_dir dir fit)
                  (rw (stat_known path s.stats_dir, folder)
                    (rw (opens path folder, append-nil (files path (inside path))) run)),
            )
        | inr file ↦ (
          false,
          rw (plain, join_path-Fits nome_dir dir fit)
              (rw (stat_known (path_of nome_dir dir) s.stats_dir, file)
                (rw (append-nil s.written) refl)),
        )
      ]
    ]

    listing_step :
        (nome_dir dir : Bytes) (dirs : List Bytes)
        → listing nome_dir (dir ∷ []) ++ listing nome_dir dirs ≡ listing nome_dir (dir ∷ dirs)
    listing_step nome_dir dir dirs =
        let path = path_of nome_dir dir in
        elim (Bool-cases (not (is_dot dir) && is_dir path)) [
          | inl found ↦ rw found (rw (append-nil (files path (inside path))) refl)
          | inr other ↦ rw other refl
        ]

    list_entries_lem :
        (nome_dir : Bytes) (dirs : List Bytes) (s : Listed)
        → All (PathsFit nome_dir) dirs
        → (d : Bool) × (list_entries sys nome_dir dirs s
            ≡ some (record { stats_dir = d; written = s.written ++ listing nome_dir dirs }))
    unfolding list_entries
    list_entries_lem nome_dir [] s fits = (
      s.stats_dir,
      ap (λ w. some (record { stats_dir = s.stats_dir; written = w })) (sym (append-nil s.written)),
    )
    list_entries_lem nome_dir (dir ∷ dirs) s (fit, fits) =
        let (d₁, first) = list_entry_lem nome_dir dir s fit in
        let one = listing nome_dir (dir ∷ []) in
        let (d, rest) =
          list_entries_lem nome_dir dirs (record { stats_dir = d₁; written = s.written ++ one })
            fits in
        let sum = append_assoc s.written one (listing nome_dir dirs) in
        (
          d,
          rw first (
              rest
              ∙ ap (λ w. some (record { stats_dir = d; written = w }))
                  (sum ∙ ap (λ w. s.written ++ w) (listing_step nome_dir dir dirs))),
        )

    -- For a directory that can be opened, where `stat` knows every path, every subdirectory can be
    -- opened and all paths fit their array, the service sends 1 and then the names of the files of
    -- the subdirectories, in the order in which the directories are read.
    pub list_directory_lem :
        (nome_dir : Bytes) (dirs : List Bytes) (stats_dir : Bool)
        → sys.opendir nome_dir ≡ some dirs
        → All (PathsFit nome_dir) dirs
        → (d : Bool) × (list_directory sys nome_dir stats_dir
            ≡ some (record { stats_dir = d; written = status (pos 1) ∷ listing nome_dir dirs }))
    unfolding list_directory
    list_directory_lem nome_dir dirs stats_dir opened fits =
        let (d, run) =
          list_entries_lem nome_dir dirs
            (record { stats_dir = stats_dir; written = status (pos 1) ∷ [] }) fits in
        (d, rw (list_directory, opened) run)
