-- ===== src/CountClient/Questions.antt =====
-- What a user of esercitazione7/client.c asks, and how it is typed.
use lab_reti_di_calcolatori.Base.{
  ℕ, ◌+◌, Bool, true, false, some, List, [], ◌∷◌, ◌≡◌, ap, if◌then◌else◌,
}
use lab_reti_di_calcolatori.Base.Int.{ℤ, pos, IsInt}
use lab_reti_di_calcolatori.Base.CString.{Bytes, codes}
use lab_reti_di_calcolatori.Counting.{DirScan}
use lab_reti_di_calcolatori.CountClient.{Scanf, put_back, scan_number}
use lab_reti_di_calcolatori.CountClient.Calls.{arrives}

-- A file, or a directory and a least size.
pub data Question : Type 0 where
  of_file : Bytes → Question
  of_dir : DirScan → Question

-- What the user types, where `decimal` writes a size.
abbrev pub typed : (ℤ → Bytes) → List Question → List Bytes
typed decimal [] = []
typed decimal (of_file nome ∷ questions) = codes "1" ∷ nome ∷ typed decimal questions
typed decimal (of_dir dir ∷ questions) =
    codes "2" ∷ dir.filename ∷ decimal dir.dimfile ∷ typed decimal questions

-- The numbers are read as they are written, and whole, as far as an `int` holds them.
pub record Reads (scan_d scan_i : Scanf) (decimal : ℤ → Bytes) : Type 0 where
  pub one : scan_d (codes "1") ≡ (some (pos 1), [])
  pub two : scan_d (codes "2") ≡ (some (pos 2), [])
  pub size : (z : ℤ) → IsInt z → scan_i (decimal z) ≡ (some z, [])

-- Whether each of the calls from number `n` on has a result.
abbrev pub all_arrive : (ℕ → List Bool) → ℕ → List Question → Bool
all_arrive net n [] = true
all_arrive net n (q ∷ questions) =
    if arrives (net n) then all_arrive net (n + 1) questions else false

pub scan_number_whole :
    (scan : Scanf) (word : Bytes) (words : List Bytes) (z : ℤ)
    → scan word ≡ (some z, [])
    → scan_number scan (word ∷ words) ≡ (some z, words)
unfolding scan_number
scan_number_whole scan word words z read = ap (λ p. (p.0, put_back p.1 words)) read
