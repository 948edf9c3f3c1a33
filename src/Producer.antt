-- ===== src/Producer.antt =====
-- The producer of exercise 0, esercitazione_0/produttore.c: it writes every character of its input
-- to a file, as an `int`. What the system calls return is a parameter.
pub mod Filtered
mod Tests
use lab_reti_di_calcolatori.Base.{ℕ, ◌+◌, Bool, List, [], ◌∷◌, ◌++◌, ◌==◌, if◌then◌else◌, ltb, take}
use lab_reti_di_calcolatori.Base.CString.{Bytes}

-- Whether the file can be created, and how many bytes the call of `write` with this number writes;
-- more than 4, which stands for -1 as well, is a failure that writes nothing.
pub record System : Type 0 where
  pub creates : Bytes → Bool
  pub writes : ℕ → ℕ

-- The code that the program exits with, and what it has written.
pub record Outcome : Type 0 where
  pub code : ℕ
  pub file : Bytes

-- The four bytes of an `int` that holds a character, the lowest first.
abbrev pub int_bytes : ℕ → Bytes
int_bytes c = c ∷ 0 ∷ 0 ∷ 0 ∷ []

-- The main loop, from the call of `write` with number `n`.
unfoldable pub write_all : System → ℕ → Bytes → Outcome
write_all sys n [] = record { code = 0; file = [] }
write_all sys n (c ∷ input) =
    let written = sys.writes n in
    let rest = write_all sys (n + 1) input in
    let failed : Outcome = record {
      code = 3;
      file = if ltb written 4 then take written (int_bytes c) else [];
    } in
    let next : Outcome = record { code = rest.code; file = int_bytes c ++ rest.file } in
    if written == 4 then next else failed

-- The arguments with the program's name in front.
unfoldable pub produttore : System → List Bytes → Bytes → Outcome
produttore sys (program ∷ file_out ∷ []) input =
    let run = write_all sys 0 input in
    let refused : Outcome = record { code = 2; file = [] } in
    if sys.creates file_out then run else refused
produttore sys _ input = record { code = 1; file = [] }
