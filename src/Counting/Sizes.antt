-- ===== src/Counting/Sizes.antt =====
-- `contadir` and the sizes of the files: `lseek(f, SEEK_END, 0)` has its last two arguments in the
-- wrong order, it is a seek to offset 2 from the start.
use lab_reti_di_calcolatori.Base.{
  ℕ, ◌+◌, ◌<◌, ◌≤◌, ◌^◌, Bool, true, false, Option, some, none, List, [], ◌∷◌, ◌++◌, ◌≡◌, refl,
  arith, if◌then◌else◌, length, length-append, All, Bool-cases, inl, inr, ◌∙◌, ap, not, ◌&&◌,
}
use lab_reti_di_calcolatori.Base.Int.{ℤ, pos, add_int, ◌+ℤ◌, ltb_ℤ}
use lab_reti_di_calcolatori.Base.CString.{Bytes, codes, strcat_lem}
use lab_reti_di_calcolatori.Counting.{
  DirScan, System, Scan, path_size, seek_set, is_special, count_size, scan_entry, scan, contadir,
}

module _ {File : Type 0} (sys : System File) (dir : DirScan) where
  abbrev path_of : Bytes → Bytes
  path_of name = (dir.filename ++ codes "/") ++ name

  abbrev pub Fits : Bytes → Type 0
  Fits name = length dir.filename + 1 + length name < path_size

  -- Whether an entry is a file that can be opened and no special folder.
  abbrev is_counted : Bytes → Option File → Bool
  is_counted name opened = not (is_special name) && elim opened [ none ↦ false | some f ↦ true ]

  -- What an entry does after its path has been opened or not.
  abbrev after_open : Bytes → Scan → Option File → Option Scan
  after_open name s none = some s
  after_open name s (some f) =
      let special : Scan = record { ris = s.ris; descriptors = s.descriptors + 1 } in
      if is_special name then some special else count_size sys dir f s

  scan_entry-Fits :
      (name : Bytes) (s : Scan)
      → Fits name
      → scan_entry sys dir name s ≡ after_open name s (sys.open_file s.descriptors (path_of name))
  unfolding scan_entry
  scan_entry-Fits name s fits =
      let l = length-append dir.filename (codes "/") in
      rw
        (
          strcat_lem path_size [] dir.filename (omega arith),
          strcat_lem path_size dir.filename (codes "/") (omega arith),
          strcat_lem path_size (dir.filename ++ codes "/") name (omega arith),
        )
        refl

  -- How many entries are files that can be opened and no special folders.
  abbrev pub count_names : List Bytes → ℕ
  count_names [] = 0
  count_names (name ∷ names) =
      if is_counted name (sys.open_file 0 (path_of name))
      then count_names names + 1
      else count_names names

  -- `lseek` to an offset from the start of a file gives that offset.
  module _ (seek : (f : File) (offset : ℤ) → sys.lseek f offset seek_set ≡ offset) where
    count_size_large :
        (f : File) (s : Scan) → ltb_ℤ (pos 2) dir.dimfile ≡ true → count_size sys dir f s ≡ some s
    unfolding count_size
    count_size_large f s large = rw (seek f (pos 2), large) refl

    entry_large :
        (name : Bytes) (s : Scan)
        → ltb_ℤ (pos 2) dir.dimfile ≡ true
        → (o : Option File)
        → (s' : Scan) × (after_open name s o ≡ some s')
          × (s'.ris ≡ s.ris)
          × (s'.descriptors ≤ s.descriptors + 1)
    entry_large name s large none = (s, refl, refl, omega arith)
    entry_large name s large (some f) = elim (Bool-cases (is_special name)) [
      | inl special ↦ (
        record { ris = s.ris; descriptors = s.descriptors + 1 },
        rw special refl,
        refl,
        omega arith,
      )
      | inr ordinary ↦ (s, rw ordinary (count_size_large f s large), refl, omega arith)
    ]

    scan_large :
        (names : List Bytes) (s : Scan)
        → ltb_ℤ (pos 2) dir.dimfile ≡ true
        → All Fits names
        → (s' : Scan) × (scan sys dir names s ≡ some s')
          × (s'.ris ≡ s.ris)
          × (s'.descriptors ≤ s.descriptors + length names)
    unfolding scan
    scan_large [] s large fits = (s, refl, refl, omega arith)
    scan_large (name ∷ names) s large (fit, fits) =
        let (s₁, run, same, one) =
          entry_large name s large (sys.open_file s.descriptors (path_of name)) in
        let (s₂, runs, sames, rest) = scan_large names s₁ large fits in
        (s₂, rw (scan_entry-Fits name s fit, run) runs, sames ∙ same, omega arith)

    pub contadir-large :
        (descriptors : ℕ) (names : List Bytes)
        → sys.opendir descriptors dir.filename ≡ some names
        → All Fits names
        → ltb_ℤ (pos 2) dir.dimfile ≡ true
        → (s' : Scan) × (contadir sys dir descriptors ≡ some s')
          × (s'.ris ≡ pos 0)
          × (s'.descriptors ≤ descriptors + 1 + length names)
    unfolding contadir
    contadir-large descriptors names opened fits large =
        let (s', run, same, bound) =
          scan_large names (record { ris = pos 0; descriptors = descriptors + 1 }) large fits in
        (s', rw (contadir, opened) run, same, bound)

    add_int_one : (n : ℕ) → n + 1 < 2 ^ 31 → add_int (pos n) (pos 1) ≡ some (pos (n + 1))
    unfolding add_int ◌+ℤ◌
    add_int_one n h = ground arith

    count_size_small :
        (f : File) (n d : ℕ)
        → ltb_ℤ (pos 2) dir.dimfile ≡ false
        → n + 1 < 2 ^ 31
        → count_size sys dir f (record { ris = pos n; descriptors = d })
          ≡ some (record { ris = pos (n + 1); descriptors = d })
    unfolding count_size
    count_size_small f n d small h = rw (seek f (pos 2), small) (rw (add_int_one n h) refl)

    entry_small :
        (name : Bytes) (n d : ℕ)
        → ltb_ℤ (pos 2) dir.dimfile ≡ false
        → n + 1 < 2 ^ 31
        → (o : Option File)
        → (d' : ℕ) × (after_open name (record { ris = pos n; descriptors = d }) o
            ≡ some
                (record { ris = pos (if is_counted name o then n + 1 else n); descriptors = d' }))
          × (d' ≤ d + 1)
    entry_small name n d small h none = elim (Bool-cases (is_special name)) [
      | inl special ↦ (d, rw special refl, omega arith)
      | inr ordinary ↦ (d, rw ordinary refl, omega arith)
    ]
    entry_small name n d small h (some f) = elim (Bool-cases (is_special name)) [
      | inl special ↦ (d + 1, rw special refl, omega arith)
      | inr ordinary ↦ (d, rw ordinary (count_size_small f n d small h), omega arith)
    ]

    -- Up to `limit` open descriptors a path can be opened or not, whatever their number.
    module _ (limit : ℕ)
        (steady : (d : ℕ) (path : Bytes)
          → d ≤ limit
          → sys.open_file d path ≡ sys.open_file 0 path) where
      scan_small :
          (names : List Bytes) (n d : ℕ)
          → ltb_ℤ (pos 2) dir.dimfile ≡ false
          → n + length names < 2 ^ 31
          → d + length names ≤ limit
          → All Fits names
          → (d' : ℕ) × (scan sys dir names (record { ris = pos n; descriptors = d })
              ≡ some (record { ris = pos (n + count_names names); descriptors = d' }))
            × (d' ≤ d + length names)
      unfolding scan
      scan_small [] n d small h room fits =
          (d, ap (λ k. some (record { ris = pos k; descriptors = d })) (omega arith), omega arith)
      scan_small (name ∷ names) n d small h room (fit, fits) =
          let o = sys.open_file 0 (path_of name) in
          let (d₁, run, one) = entry_small name n d small (omega arith) o in
          let n₁ = if is_counted name o then n + 1 else n in
          let (d₂, runs, rest) = scan_small names n₁ d₁ small (ground arith) (omega arith) fits in
          let sum : n₁ + count_names names ≡ n + count_names (name ∷ names) = ground arith in
          (
            d₂,
            rw (scan_entry-Fits name _ fit, steady d (path_of name) (omega arith), run, ← sum) runs,
            omega arith,
          )

      pub contadir-small :
          (descriptors : ℕ) (names : List Bytes)
          → sys.opendir descriptors dir.filename ≡ some names
          → All Fits names
          → length names < 2 ^ 31
          → descriptors + 1 + length names ≤ limit
          → ltb_ℤ (pos 2) dir.dimfile ≡ false
          → (d : ℕ) × (contadir sys dir descriptors
              ≡ some (record { ris = pos (count_names names); descriptors = d }))
            × (d ≤ descriptors + 1 + length names)
      unfolding contadir
      contadir-small descriptors names opened fits bound room small =
          let (d, run, grown) =
            scan_small names 0 (descriptors + 1) small (omega arith) room fits in
          (
            d,
            rw (contadir, opened)
                (run ∙ ap (λ k. some (record { ris = pos k; descriptors = d })) (omega arith)),
            grown,
          )

      -- Of a directory of fewer than 2^31 entries that can be opened and whose paths fit the array, the
      -- sizes of the files have no part in the count, against esercitazione7/Esercitazione8.pptx, which asks for the
      -- files that are greater than the wanted size: every file that can be opened counts, special
      -- folders excluded, where the wanted size is at most two bytes, and none where it is more. The call
      -- leaves at most one descriptor open for the directory and one for each entry. `lseek` to an
      -- offset from the start of a file gives that offset, and whether a file can be opened does not
      -- depend on the number of descriptors, as far as the call may come.
      pub contadir_ignores :
          (descriptors : ℕ) (names : List Bytes)
          → sys.opendir descriptors dir.filename ≡ some names
          → All Fits names
          → length names < 2 ^ 31
          → descriptors + 1 + length names ≤ limit
          → (d : ℕ) × (contadir sys dir descriptors
              ≡ some (record {
                ris = pos (if ltb_ℤ (pos 2) dir.dimfile then 0 else count_names names);
                descriptors = d;
              }))
            × (d ≤ descriptors + 1 + length names)
      contadir_ignores descriptors names opened fits bound room =
          elim (Bool-cases (ltb_ℤ (pos 2) dir.dimfile)) [
            | inl large ↦
                let (s, run, none_counted, grown) =
                  contadir-large descriptors names opened fits large in
                (
                  s.descriptors,
                  rw large (
                      run
                      ∙ ap (λ r. some (record { ris = r; descriptors = s.descriptors }))
                          none_counted),
                  grown,
                )
            | inr small ↦
                let (d, run, grown) =
                  contadir-small descriptors names opened fits bound room small in
                (d, rw small run, grown)
          ]
