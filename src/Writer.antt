-- ===== src/Writer.antt =====
-- The writer of exercise 0, esercitazione_0/scrittore.c, which writes one text to a file over and over. How many bytes
-- each `write` takes is a parameter; what it returns is not looked at.
pub mod Endless
mod Tests
use lab_reti_di_calcolatori.Base.{
  ℕ, zero, suc, Bool, Option, none, some, List, [], ◌++◌, ltb, if◌then◌else◌, ◌>>=◌, take,
}
use lab_reti_di_calcolatori.Base.Int.{count_up}
use lab_reti_di_calcolatori.Base.CString.{Bytes, codes}

abbrev pub string : Bytes
string = codes "abcdefghijklmnopqrstuvwxyz"

-- The bound of the loop, which is no `int`.
abbrev pub rounds_bound : ℕ
rounds_bound = 100000000000

-- Within the loop, with `i` and what the file holds; past it; or the exit with 2 where the file does not open.
pub data Writing : Type 0 where
  within : ℕ → Bytes → Writing
  past : Bytes → Writing
  not_opened : Writing

-- The loop from `i`, looked at after this many rounds, if it has not ended.
unfoldable pub write_rounds : (ℕ → ℕ) → ℕ → ℕ → Bytes → Option Writing
write_rounds takes zero i file = some (if ltb i rounds_bound then within i file else past file)
write_rounds takes (suc rounds) i file =
    let round = do i' ← count_up i; write_rounds takes rounds i' (file ++ take (takes i) string)
    in if ltb i rounds_bound then round else some (past file)

-- The program, where the file is emptied as it is opened.
unfoldable pub scrittore : Bool → (ℕ → ℕ) → ℕ → Option Writing
scrittore opens takes rounds =
    let loop = write_rounds takes rounds 0 [] in if opens then loop else some not_opened
