-- ===== src/CountClient.antt =====
-- The client of the counting service, the loop of esercitazione7/client.c, and the server that it calls. The model
-- begins where the handle of the server has been made, and takes the words of the input. What becomes of a call on
-- its way is a parameter, and so is what a number makes of a word.
pub mod Calls
pub mod Questions
pub mod Answers
pub mod Ends
mod Tests
use lab_reti_di_calcolatori.Base.{
  ℕ, zero, suc, ◌+◌, Bool, true, false, ◌||◌, Option, none, some, List, [], ◌∷◌, ◌++◌, ◌==◌,
  if◌then◌else◌, ◌>>=◌, length, ltb, ◌^◌,
}
use lab_reti_di_calcolatori.Base.Int.{ℤ, pos, negsuc}
use lab_reti_di_calcolatori.Base.CString.{Bytes, scan_word}
use lab_reti_di_calcolatori.Counting.{Res, DirScan, System, contafile, contadir}

-- The array behind `contafile` and `filename` have room for this many bytes.
abbrev pub array_size : ℕ
array_size = 256

-- What the client prints for a call that has a result.
pub data Line : Type 0 where
  values : Bytes → Res → Line
  no_file : Bytes → Line
  result : Bytes → ℤ → Line
  no_dir : Bytes → Line

-- The strings in the two arrays, if a word has been read into them, the number of the next call, what has been
-- printed, whether the client has exited with 1, and the open descriptors of the server.
pub record Desk : Type 0 where
  pub contafile_word : Option Bytes
  pub filename : Option Bytes
  pub calls : ℕ
  pub shown : List Line
  pub failed : Bool
  pub descriptors : ℕ

-- The loop goes on when its bound is met, has met behaviour that is undefined, or has come to its end.
pub data Run : Type 0 where
  running : Run
  undefined : Run
  ended : Desk → Run

-- What `scanf` makes of a word: the number, if there is one, and what is left of the word.
abbrev pub Scanf : Type 0
Scanf = Bytes → Option ℤ × Bytes

-- `scanf` stores a number into an `int`: one that does not fit is undefined.
abbrev pub fits_int : ℤ → Option ℤ
fits_int (pos n) = if ltb n (2 ^ 31) then some (pos n) else none
fits_int (negsuc n) = if ltb n (2 ^ 31) then some (negsuc n) else none

-- The words behind a number.
abbrev pub put_back : Bytes → List Bytes → List Bytes
put_back [] words = words
put_back (c ∷ rest) words = (c ∷ rest) ∷ words

unfoldable pub scan_number : Scanf → List Bytes → Option ℤ × List Bytes
scan_number scan [] = (none, [])
scan_number scan (word ∷ words) = let (z, rest) = scan word in (z, put_back rest words)

-- `scanf("%s")` into an array with this string: at the end of the input the array stays as it is.
unfoldable pub scan_string : Option Bytes → List Bytes → Option (Option Bytes × List Bytes)
scan_string array [] = some (array, [])
scan_string array (word ∷ words) = do read ← scan_word array_size word; some (some read, words)

-- A remote call: the procedure, and for each copy of the call that reaches the server whether its result comes
-- back. The first that does is the result, and with none the client has none. All copies run before the next call.
unfoldable pub call : {S R : Type 0} → (S → Option (R × S)) → List Bool → S → Option (Option R × S)
call run [] s = some (none, s)
call run (back ∷ copies) s = do
  (r, t) ← run s
  (later, u) ← call run copies t
  some (if back then some r else later, u)

-- `z == -1`.
abbrev pub is_error : ℤ → Bool
is_error (pos n) = false
is_error (negsuc n) = n == 0

abbrev pub is_procedure : ℕ → ℤ → Bool
is_procedure n (pos m) = m == n
is_procedure n (negsuc m) = false

-- What is printed for the result of `contafile` and of `contadir`.
abbrev pub line_of_res : Bytes → Res → Line
line_of_res nome r =
    if is_error r.first || (is_error r.second || is_error r.third)
    then no_file nome
    else values nome r

abbrev pub line_of_ris : Bytes → ℤ → Line
line_of_ris nome ris = if is_error ris then no_dir nome else result nome ris

-- Behind a call: the client exits where there is no result.
abbrev pub show : {R : Type 0} → (R → Line) → Option R → Desk → Desk
show line none d = record d { failed = true }
show line (some r) d = record d { shown = d.shown ++ line r ∷ [] }

-- The procedures at the server, by its open descriptors. `contafile` closes its file.
abbrev pub run_contafile : (ℕ → Bytes → Option Bytes) → Bytes → ℕ → Option (Res × ℕ)
run_contafile open_file nome descriptors = do
  r ← contafile (open_file descriptors) nome
  some (r, descriptors)

abbrev pub run_contadir : {File : Type 0} → System File → DirScan → ℕ → Option (ℤ × ℕ)
run_contadir sys dir descriptors = do s ← contadir sys dir descriptors; some (s.ris, s.descriptors)

module _ {File : Type 0} (open_file : ℕ → Bytes → Option Bytes) (sys : System File)
    (net : ℕ → List Bool) (scan_d scan_i : Scanf) where
  -- The branch of procedure 1.
  unfoldable pub ask_contafile : List Bytes → Desk → Option (List Bytes × Desk)
  ask_contafile words d = do
    (array, rest) ← scan_string d.contafile_word words
    nome ← array
    (r, descriptors) ← call (run_contafile open_file nome) (net d.calls) d.descriptors
    let called = record d { contafile_word = array; calls = d.calls + 1; descriptors = descriptors }
    some (rest, show (line_of_res nome) r called)

  -- The branch of procedure 2. A size that is no number leads to `gets` without an argument, which is undefined.
  unfoldable pub ask_contadir : List Bytes → Desk → Option (List Bytes × Desk)
  ask_contadir words d = do
    (array, rest) ← scan_string d.filename words
    let (size, rest') = scan_number scan_i rest
    dimfile ← size >>= fits_int
    nome ← array
    let dir : DirScan = record { filename = nome; dimfile = dimfile }
    (ris, descriptors) ← call (run_contadir sys dir) (net d.calls) d.descriptors
    let called = record d { filename = array; calls = d.calls + 1; descriptors = descriptors }
    some (rest', show (line_of_ris nome) ris called)

  unfoldable pub choose : ℤ → List Bytes → Desk → Option (List Bytes × Desk)
  choose procedure words d =
      let branch =
        if is_procedure 1 procedure
        then ask_contafile words d
        else if is_procedure 2 procedure
        then ask_contadir words d
        else some (words, d) in
      fits_int procedure >>= (λ z. branch)

  -- The main loop, by the numbers of procedures that may still be read.
  unfoldable pub session : ℕ → List Bytes → Desk → Run
  session zero words d = running
  session (suc fuel) words d =
      let (procedure, rest) = scan_number scan_d words in
      elim procedure [
        | none ↦ ended d
        | some z ↦ elim (choose z rest d) [
          | none ↦ undefined
          | some p ↦ let next = session fuel p.0 p.1 in if p.1.failed then ended p.1 else next
        ]
      ]

-- The bytes of the words: a number takes at least one.
abbrev pub total : List Bytes → ℕ
total [] = 0
total (word ∷ words) = length word + total words

-- The client at its first prompt.
abbrev pub opened : ℕ → Desk
opened descriptors = record {
  contafile_word = none;
  filename = none;
  calls = 0;
  shown = [];
  failed = false;
  descriptors = descriptors;
}
