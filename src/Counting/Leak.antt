-- ===== src/Counting/Leak.antt =====
-- The descriptors that `contadir` leaves open, over the life of a server.
use mathlib.Core.Option.{none-ne-some}
use lab_reti_di_calcolatori.Base.{
  ℕ, ◌+◌, ◌-◌, ◌≤◌, Option, some, none, List, [], ◌∷◌, ◌≡◌, arith, ◌>>=◌, Option-cases, inl, inr,
  ◌⊎◌, bind-eq-some, some_inj, sym, ap, ◌∙◌,
}
use lab_reti_di_calcolatori.Base.Int.{ℤ, pos, negsuc}
use lab_reti_di_calcolatori.Base.CString.{Bytes}
use lab_reti_di_calcolatori.Counting.{DirScan, System, Scan, count_size, scan_entry, scan, contadir}

-- How many answers are counts.
abbrev pub counts : List ℤ → ℕ
counts [] = 0
counts (pos n ∷ zs) = counts zs + 1
counts (negsuc n ∷ zs) = counts zs

module _ {File : Type 0} (sys : System File) where
  entry_keeps :
      (dir : DirScan) (name : Bytes) (s s' : Scan)
      → scan_entry sys dir name s ≡ some s'
      → s.descriptors ≤ s'.descriptors
  unfolding scan_entry count_size
  entry_keeps dir name s s' h = ground arith

  scan_keeps :
      (dir : DirScan) (names : List Bytes) (s s' : Scan)
      → scan sys dir names s ≡ some s'
      → s.descriptors ≤ s'.descriptors
  unfolding scan
  scan_keeps dir [] s s' h = rw (some_inj h) (omega arith)
  scan_keeps dir (name ∷ names) s s' h =
      let (s₁, run, runs) = bind-eq-some _ _ h in
      let first = entry_keeps dir name s s₁ run in
      let rest = scan_keeps dir names s₁ s' runs in omega arith

  -- A call that opens its directory leaves a descriptor open; one that does not answers -1.
  contadir_keeps :
      (limit : ℕ)
      → ((d : ℕ) (name : Bytes) → limit ≤ d → sys.opendir d name ≡ none)
      → (dir : DirScan) (d : ℕ) (s : Scan) → contadir sys dir d ≡ some s
      → ((s.ris ≡ negsuc 0) × (s.descriptors ≡ d)) ⊎ ((¬ (limit ≤ d)) × (d + 1 ≤ s.descriptors))
  unfolding contadir
  contadir_keeps limit exhausted dir d s h = elim (Option-cases (sys.opendir d dir.filename)) [
    | inl closed ↦
        let same = some_inj (rw (contadir, closed) at h) in
        inl (sym (ap Scan.ris same), sym (ap Scan.descriptors same))
    | inr (names, opened) ↦
        let grows =
          scan_keeps dir names (record { ris = pos 0; descriptors = d + 1 }) s
            (rw (contadir, opened) at h) in
        inr ((λ full. none-ne-some names (sym (exhausted d dir.filename full) ∙ opened)), grows)
  ]

  -- The answers to a sequence of calls.
  unfoldable pub answers : List DirScan → ℕ → Option (List ℤ)
  answers [] descriptors = some []
  answers (dir ∷ dirs) descriptors = do
    s ← contadir sys dir descriptors
    rest ← answers dirs s.descriptors
    some (s.ris ∷ rest)

  counts_step :
      (limit d d' : ℕ) (z : ℤ) (zs : List ℤ)
      → ((z ≡ negsuc 0) × (d' ≡ d)) ⊎ ((¬ (limit ≤ d)) × (d + 1 ≤ d'))
      → counts zs ≤ limit - d'
      → counts (z ∷ zs) ≤ limit - d
  counts_step limit d d' z zs (inl (closed, same)) bound = rw closed (omega arith)
  counts_step limit d d' (pos n) zs (inr (room, grows)) bound = omega arith
  counts_step limit d d' (negsuc n) zs (inr (room, grows)) bound = omega arith

  -- Every call that opens its directory leaves one descriptor open: where `opendir` fails once
  -- `limit` descriptors are open, a sequence of calls that is answered has no more answers that are
  -- counts than there are descriptors left at its start.
  pub answers_bounded :
      (limit : ℕ)
      → ((d : ℕ) (name : Bytes) → limit ≤ d → sys.opendir d name ≡ none)
      → (dirs : List DirScan) (descriptors : ℕ) (zs : List ℤ) → answers dirs descriptors ≡ some zs
      → counts zs ≤ limit - descriptors
  unfolding answers contadir
  answers_bounded limit closed [] descriptors zs h = rw (← some_inj h) (omega arith)
  answers_bounded limit closed (dir ∷ dirs) descriptors zs h =
      let next = λ (s : Scan). answers dirs s.descriptors >>= λ rest. some (s.ris ∷ rest) in
      let (s, call, later) = bind-eq-some (contadir sys dir descriptors) next h in
      let (rest, runs, same) =
        bind-eq-some (answers dirs s.descriptors) (λ rest. some (s.ris ∷ rest)) later in
      let bound = answers_bounded limit closed dirs s.descriptors rest runs in
      let kept = contadir_keeps limit closed dir descriptors s call in
      rw (← some_inj same) (counts_step limit descriptors s.descriptors s.ris rest kept bound)
