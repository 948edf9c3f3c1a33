-- ===== src/Longest.antt =====
-- The longest-word service of exercise 3, esercitazione_3/es1/serverDatagram.c: a client sends the
-- name of a file and is sent the length of its longest word. What opening and reading a file gives
-- is a parameter.
pub mod Words
pub mod Client
pub mod Maxima
mod Tests
use lab_reti_di_calcolatori.Base.{
  ℕ, ◌+◌, Bool, true, false, ◌||◌, Option, none, some, List, [], ◌∷◌, ◌==◌, if◌then◌else◌, ◌>>=◌,
}
use lab_reti_di_calcolatori.Base.Int.{ℤ, pos, negsuc, ltb_ℤ, count_up}
use lab_reti_di_calcolatori.Base.CString.{Bytes, read_string}

abbrev pub line_length : ℕ
line_length = 256

-- The variables that live as long as the server: the array of the file name and `result`, which is
-- set to 0 before the first request only; and how many files it has opened. It closes none.
pub record Server : Type 0 where
  pub file_name : Bytes
  pub result : ℤ
  pub descriptors : ℕ

abbrev pub is_separator : ℕ → Bool
is_separator c = c == b' ' || c == b'\n'

-- The reading loop, from `result` and `tmp`.
unfoldable pub read_words : Bytes → ℤ → ℕ → Option ℤ
read_words [] result tmp = some result
read_words (c ∷ cs) result tmp =
    let separator = read_words cs (if ltb_ℤ result (pos tmp) then pos tmp else result) 0 in
    let letter = count_up tmp >>= read_words cs result in
    if is_separator c then separator else letter

-- `recvfrom` writes to the front of the array, as much of the datagram as it has room for, and
-- leaves the bytes behind it.
unfoldable pub receive_name : Bytes → Bytes → Bytes
receive_name [] file_name = file_name
receive_name (c ∷ cs) [] = []
receive_name (c ∷ cs) (old ∷ file_name) = c ∷ receive_name cs file_name

-- The body of the main loop for one datagram, where `open_file d` is what opening and reading a path gives when `d`
-- files are open: the new state, whose `result` is the answer.
unfoldable pub serve : (ℕ → Bytes → Option Bytes) → Bytes → Server → Option Server
serve open_file datagram s = do
  let file_name = receive_name datagram s.file_name
  name ← read_string file_name
  let opened = λ (content : Bytes). do
    result ← read_words content s.result 0
    some (record { file_name = file_name; result = result; descriptors = s.descriptors + 1 })
  elim (open_file s.descriptors name) [
    | none ↦ some (record s { file_name = file_name; result = negsuc 0 })
    | some content ↦ opened content
  ]
