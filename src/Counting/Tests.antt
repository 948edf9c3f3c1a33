-- ===== src/Counting/Tests.antt =====
-- Runs of the counting service, and the theorems at concrete inputs.
use Prim.Native.Nat.{ℕ, ◌+◌, ◌-◌, ◌≤◌, zero}
use lab_reti_di_calcolatori.Base.{
  Option, some, none, List, [], ◌∷◌, ◌≡◌, refl, arith, length, if◌then◌else◌, leb,
}
use lab_reti_di_calcolatori.Base.Int.{ℤ, pos, negsuc}
use lab_reti_di_calcolatori.Base.CString.{Bytes, codes, str_eq}
use lab_reti_di_calcolatori.Counting.{DirScan, System, Scan, contafile, contadir}
use lab_reti_di_calcolatori.Counting.Files.{totals, contafile_lem}
use lab_reti_di_calcolatori.Counting.Sizes.{contadir-large, contadir_ignores}
use lab_reti_di_calcolatori.Counting.Leak.{answers, counts, answers_bounded}

abbrev text : Bytes
text = codes "one two\nthree"

contafile_run : contafile (λ name. some text) (codes "a") ≡ some (totals 13 2 1)
contafile_run = contafile_lem (λ name. some text) (codes "a") text refl (omega arith)

-- A directory "d" with one file, of `size` bytes, in a process of at most 5 descriptors: a seek from
-- the start gives the offset, one from the end adds the size.
abbrev seek : ℤ → ℕ → ℤ → ℤ
seek offset size (pos zero) = offset
seek (pos n) size whence = pos (n + size)
seek offset size whence = negsuc 0

abbrev entries : List Bytes
entries = codes "." ∷ codes ".." ∷ codes "x" ∷ []

abbrev system : System ℕ
system = record {
  opendir = λ d name. if leb 5 d then none else some entries;
  open_file = λ d path. some 9;
  lseek = λ size offset whence. seek offset size whence;
}

abbrev wanted : ℕ → DirScan
wanted n = record { filename = codes "d"; dimfile = pos n }

-- The file has nine bytes and the wanted size is three.
contadir-large_run :
    (s' : Scan) × (contadir system (wanted 3) 3 ≡ some s')
    × (s'.ris ≡ pos 0)
    × (s'.descriptors ≤ 3 + 1 + 3)
contadir-large_run =
    contadir-large system (wanted 3) (λ f offset. refl) 3 entries refl
      (omega arith, (omega arith, (omega arith, tt))) refl

contadir_ignores_example :
    (d : ℕ) × (contadir system (wanted 2) 3 ≡ some (record { ris = pos 1; descriptors = d }))
    × (d ≤ 7)
unfolding str_eq
contadir_ignores_example =
    contadir_ignores system (wanted 2) (λ f offset. refl) 9 (λ d path few. refl) 3 entries refl
      (omega arith, (omega arith, (omega arith, tt))) (omega arith) (omega arith)

answers_bounded_example : counts (pos 1 ∷ negsuc 0 ∷ []) ≤ 5 - 3
unfolding answers contadir lab_reti_di_calcolatori.Counting.scan
    lab_reti_di_calcolatori.Counting.scan_entry lab_reti_di_calcolatori.Base.CString.strcat str_eq
    lab_reti_di_calcolatori.Counting.count_size lab_reti_di_calcolatori.Base.Int.add_int
answers_bounded_example =
    answers_bounded system 5 (λ d name full. ground arith) (wanted 2 ∷ wanted 2 ∷ []) 3
      (pos 1 ∷ negsuc 0 ∷ []) refl
