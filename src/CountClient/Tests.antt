-- ===== src/CountClient/Tests.antt =====
-- Runs of the client of the counting service, and the theorems at concrete inputs. A procedure is one digit here, and
-- a size a sign and as many ones.
use lab_reti_di_calcolatori.Base.{
  ℕ, ◌-◌, lt→ltb, Bool, true, false, Option, none, some, List, [], ◌∷◌, ◌≡◌, refl, ap, arith,
  length, replicate, length-replicate, if◌then◌else◌, ◌==◌, ltb,
}
use lab_reti_di_calcolatori.Base.Int.{ℤ, pos, negsuc}
use lab_reti_di_calcolatori.Base.CString.{Bytes, codes, str_eq}
use lab_reti_di_calcolatori.Counting.{DirScan, System}
use lab_reti_di_calcolatori.Counting.Files.{totals}
use lab_reti_di_calcolatori.CountClient.{values, result, no_dir, Scanf, running, session, opened}
use lab_reti_di_calcolatori.CountClient.Calls.{IsOpen}
use lab_reti_di_calcolatori.CountClient.Ends.{Consumes, session_ends}
use lab_reti_di_calcolatori.CountClient.Answers.{told}
use lab_reti_di_calcolatori.CountClient.Questions.{Question, of_file, of_dir, Reads}

abbrev number : ℤ → Bytes
number (pos n) = b'+' ∷ replicate n b'1'
number (negsuc n) = b'-' ∷ replicate n b'1'

abbrev scan_size : Scanf
scan_size [] = (none, [])
scan_size (c ∷ word) =
    if c == b'+'
    then (some (pos (length word)), [])
    else if c == b'-'
    then (some (negsuc (length word)), [])
    else (none, c ∷ word)

abbrev scan_digit : Scanf
scan_digit [] = (none, [])
scan_digit (c ∷ word) =
    if ltb c b'0'
    then (none, c ∷ word)
    else if ltb b'9' c
    then (none, c ∷ word)
    else (some (pos (c - b'0')), word)

scan_size-number : (z : ℤ) → scan_size (number z) ≡ (some z, [])
scan_size-number (pos n) = ap (λ m. (some (pos m), [])) (length-replicate n b'1')
scan_size-number (negsuc n) = ap (λ m. (some (negsuc m), [])) (length-replicate n b'1')

numbers-Reads : Reads scan_digit scan_size number
numbers-Reads = record { one = refl; two = refl; size = (λ z int. scan_size-number z) }

scan_digit-Consumes : Consumes scan_digit
scan_digit-Consumes [] rest z h = ground arith
scan_digit-Consumes (c ∷ word) rest z h = ground arith

scan_size-Consumes : Consumes scan_size
scan_size-Consumes [] rest z h = ground arith
scan_size-Consumes (c ∷ word) rest z h = ground arith

abbrev text : Bytes
text = codes "one two\nthree"

abbrev open_text : Bytes → Option Bytes
open_text nome = if str_eq nome (codes "a") then some text else none

-- The server may have at most 99 open descriptors.
abbrev open_at : ℕ → Bytes → Option Bytes
open_at d nome = if ltb d 99 then open_text nome else none

abbrev entries : List Bytes
entries = codes "." ∷ codes ".." ∷ codes "x" ∷ []

abbrev system : System ℕ
system = record {
  opendir =
      λ d nome. if ltb d 99 then (if str_eq nome (codes "d") then some entries else none) else none;
  open_file = λ d path. if ltb d 99 then some 9 else none;
  lseek = λ size offset whence. offset;
}

system-IsOpen : IsOpen open_at open_text system 98
system-IsOpen = record {
  texts = λ d nome few. rw (lt→ltb d 99 (omega arith));
  dirs = λ d nome few. rw (lt→ltb d 99 (omega arith));
  paths = λ d path few. rw (lt→ltb d 99 (omega arith));
  seeks = λ f offset. refl;
}

-- The first call is run twice, and the last has no result.
abbrev net : ℕ → List Bool
net n = if n == 0 then false ∷ true ∷ [] else if n == 3 then false ∷ [] else true ∷ []

abbrev folder : DirScan
folder = record { filename = codes "d"; dimfile = pos 1 }

abbrev nowhere : DirScan
nowhere = record { filename = codes "e"; dimfile = negsuc 0 }

abbrev questions : List Question
questions =
    of_file (codes "a")
    ∷ of_dir folder
    ∷ of_dir nowhere
    ∷ of_file (codes "b")
    ∷ of_file (codes "a")
    ∷ []

questions_shown :
    told open_at open_text system net scan_digit scan_size number 98 4 system-IsOpen numbers-Reads 0
      questions
    ≡ values (codes "a") (totals 13 2 1) ∷ result (codes "d") (pos 1) ∷ no_dir (codes "e") ∷ []
unfolding str_eq
questions_shown = refl

-- "12" is procedure 1, and what is left of it the name of the file; "7x" is no procedure, and "x" ends the loop.
session_ends_example : ¬ (
    session open_at system net scan_digit scan_size 8
      (codes "12" ∷ codes "7x" ∷ codes "1" ∷ [])
      (opened 3)
    ≡ running)
session_ends_example =
    session_ends open_at system net scan_digit scan_size scan_digit-Consumes scan_size-Consumes
      (codes "12" ∷ codes "7x" ∷ codes "1" ∷ []) 8 (opened 3) (omega arith)
