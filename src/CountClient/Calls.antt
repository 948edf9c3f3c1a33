-- ===== src/CountClient/Calls.antt =====
-- Calls of a procedure that gives the same result however often it is run, and the procedures of
-- esercitazione7/implementazione.c as such.
use lab_reti_di_calcolatori.Base.{
  ℕ, ◌+◌, ◌≤◌, ◌<◌, arith, ◌^◌, Bool, true, false, Option, none, some, List, [], ◌∷◌, ◌≡◌, refl,
  ◌∙◌, length, if◌then◌else◌, Bool-cases, Option-cases, inl, inr, All,
}
use lab_reti_di_calcolatori.Base.Int.{ℤ, pos, negsuc, ltb_ℤ}
use lab_reti_di_calcolatori.Base.CString.{Bytes}
use lab_reti_di_calcolatori.Counting.{Res, DirScan, System, seek_set, contafile, contadir}
use lab_reti_di_calcolatori.Counting.Files.{count_if, is_gap, is_newline, totals, contafile_lem}
use lab_reti_di_calcolatori.Counting.Sizes.{Fits, count_names, contadir_ignores}
use lab_reti_di_calcolatori.CountClient.{
  Line, values, no_file, result, no_dir, call, line_of_res, line_of_ris, run_contafile,
  run_contadir,
}

-- A result comes back.
abbrev pub arrives : List Bool → Bool
arrives [] = false
arrives (back ∷ copies) = if back then true else arrives copies

abbrev pub got : {R : Type 0} → Bool → R → Option R
got true r = some r
got false r = none

-- The copies of a call, each of which takes up to `cost` descriptors.
abbrev pub spent : ℕ → List Bool → ℕ
spent cost [] = 0
spent cost (back ∷ copies) = cost + spent cost copies

-- Below the limit each copy gives the same result.
pub call-got :
    {R : Type 0} (run : ℕ → Option (R × ℕ)) (r : R) (limit cost : ℕ)
    → ((s : ℕ) → s + cost ≤ limit → (t : ℕ) × (run s ≡ some (r, t)) × (t ≤ s + cost))
    → (copies : List Bool) (s : ℕ) → s + spent cost copies ≤ limit
    → (t : ℕ) × (call run copies s ≡ some (got (arrives copies) r, t)) × (t ≤ s + spent cost copies)
unfolding call
call-got run r limit cost same [] s room = (s, refl, omega arith)
call-got run r limit cost same (back ∷ copies) s room =
    let (t, ran, one) = same s (omega arith) in
    let (u, later, rest) = call-got run r limit cost same copies t (omega arith) in
    (
      u,
      elim (Bool-cases back) [
        | inl first ↦ rw (ran, first) (rw later)
        | inr lost ↦ rw (ran, lost) (rw later)
      ],
      omega arith,
    )

module _ (open_file : Bytes → Option Bytes) where
  -- What the client is to print for a file.
  abbrev pub line_of_file : Bytes → Line
  line_of_file nome = elim (open_file nome) [
    | none ↦ no_file nome
    | some content ↦
        values nome
          (totals (length content) (count_if is_gap content) (count_if is_newline content))
  ]

  pub run_contafile_line :
      (open_at : ℕ → Bytes → Option Bytes) (limit cost : ℕ)
      → ((d : ℕ) (nome : Bytes) → d ≤ limit → open_at d nome ≡ open_file nome)
      → (nome : Bytes)
      → ((content : Bytes) → open_file nome ≡ some content → length content < 2 ^ 31)
      → (r : Res) × ((s : ℕ)
          → s + cost ≤ limit
          → (t : ℕ) × (run_contafile open_at nome s ≡ some (r, t)) × (t ≤ s + cost))
        × (line_of_res nome r ≡ line_of_file nome)
  unfolding contafile
  run_contafile_line open_at limit cost steady nome small = elim (Option-cases (open_file nome)) [
    | inl missing ↦ (
      record { first = negsuc 0; second = negsuc 0; third = negsuc 0 },
      (λ s room. (s, rw (steady s nome (omega arith) ∙ missing, contafile), omega arith)),
      rw (missing, line_of_file),
    )
    | inr (content, found) ↦ (
      totals (length content) (count_if is_gap content) (count_if is_newline content),
      (λ s room. (
        s,
        rw (
            contafile_lem (open_at s) nome content (steady s nome (omega arith) ∙ found)
              (small content found)),
        omega arith,
      )),
      rw (found, line_of_file),
    )
  ]

-- With at most `limit` open descriptors a directory and a file can be opened or not, whatever their number, and
-- `files` is what opening and reading a file gives; a seek to an offset from the start of a file gives that offset.
pub record IsOpen {File : Type 0} (open_file : ℕ → Bytes → Option Bytes)
    (files : Bytes → Option Bytes) (sys : System File) (limit : ℕ) : Type 0 where
  pub texts : (d : ℕ) (nome : Bytes) → d ≤ limit → open_file d nome ≡ files nome
  pub dirs : (d : ℕ) (nome : Bytes) → d ≤ limit → sys.opendir d nome ≡ sys.opendir 0 nome
  pub paths : (d : ℕ) (path : Bytes) → d ≤ limit → sys.open_file d path ≡ sys.open_file 0 path
  pub seeks : (f : File) (offset : ℤ) → sys.lseek f offset seek_set ≡ offset

module _ {File : Type 0} (sys : System File) where
  -- What it is to print for a directory and a least size.
  abbrev pub line_of_dir : DirScan → Line
  line_of_dir dir = elim (sys.opendir 0 dir.filename) [
    | none ↦ no_dir dir.filename
    | some names ↦
        result dir.filename
          (pos (if ltb_ℤ (pos 2) dir.dimfile then 0 else count_names sys dir names))
  ]

  -- A call takes at most `cost` descriptors.
  abbrev pub IsListed : ℕ → DirScan → Type 0
  IsListed cost dir =
      (names : List Bytes)
      → sys.opendir 0 dir.filename ≡ some names
      → All (Fits sys dir) names × (length names < 2 ^ 31) × (1 + length names ≤ cost)

  pub run_contadir_line :
      (limit cost : ℕ) (dir : DirScan)
      → ((d : ℕ) (nome : Bytes) → d ≤ limit → sys.opendir d nome ≡ sys.opendir 0 nome)
      → ((d : ℕ) (path : Bytes) → d ≤ limit → sys.open_file d path ≡ sys.open_file 0 path)
      → ((f : File) (offset : ℤ) → sys.lseek f offset seek_set ≡ offset)
      → IsListed cost dir
      → (z : ℤ) × ((s : ℕ)
          → s + cost ≤ limit
          → (t : ℕ) × (run_contadir sys dir s ≡ some (z, t)) × (t ≤ s + cost))
        × (line_of_ris dir.filename z ≡ line_of_dir dir)
  unfolding contadir
  run_contadir_line limit cost dir dirs paths seeks listed =
      elim (Option-cases (sys.opendir 0 dir.filename)) [
        | inl missing ↦ (
          negsuc 0,
          (λ s room. (s, rw (dirs s dir.filename (omega arith) ∙ missing, contadir), omega arith)),
          rw (missing, line_of_dir),
        )
        | inr (names, found) ↦
            let (fits, few, cheap) = listed names found in
            (
              pos (if ltb_ℤ (pos 2) dir.dimfile then 0 else count_names sys dir names),
              (λ s room.
                  let (t, ran, grown) =
                    contadir_ignores sys dir seeks limit paths s names
                      (dirs s dir.filename (omega arith) ∙ found) fits few (omega arith) in
                  (t, rw ran, omega arith)),
              rw (found, line_of_dir),
            )
      ]
