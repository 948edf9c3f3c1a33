-- ===== src/Lines.antt =====
-- The line service of exercise 3, esercitazione_3/es2/serverTCP.c: a client sends a line number, a
-- size and a file, and is sent the file back without that line. The headers of the requests of a
-- connection are in `Connection`.
pub mod Text
pub mod Connection
pub mod Header
pub mod Requests
pub mod Accepting
pub mod Acceptors
pub mod Transfer
pub mod Truncated
mod Tests
use lab_reti_di_calcolatori.Base.{
  ℕ, ◌+◌, Bool, true, false, not, Option, none, some, List, [], ◌∷◌, ◌++◌, ltb, ◌==◌, if◌then◌else◌,
  ◌>>=◌, length,
}
use lab_reti_di_calcolatori.Base.Int.{ℤ, pos, negsuc, add_int, ltb_ℤ, count_up}
use lab_reti_di_calcolatori.Base.CString.{Bytes}
pub use lab_reti_di_calcolatori.Base.Stream.{Recv, byte, eof, failed}

abbrev pub buff_size : ℕ
buff_size = 256

-- The variables of the loop: the first `charCounter` bytes of `buff`, and what was sent so far,
-- one element to a call of `send`.
pub record Upload : Type 0 where
  pub i : ℤ
  pub tmp : ℕ
  pub buff : Bytes
  pub line_counter : ℕ
  pub sent : List Bytes

-- The value that `recv` returns, and what it leaves in `tmp`.
abbrev pub returned : Recv → ℤ
returned (byte c) = pos 1
returned eof = pos 0
returned failed = negsuc 0

abbrev pub received : Recv → ℕ → ℕ
received (byte c) tmp = c
received _ tmp = tmp

-- `lineCounter == riga`.
abbrev pub is_riga : ℤ → ℕ → Bool
is_riga (pos m) n = m == n
is_riga (negsuc m) n = false

-- `buff[charCounter] = c`, which faults past the array.
unfoldable pub store_char : ℕ → Bytes → Option Bytes
store_char c buff = if ltb (length buff) buff_size then some (buff ++ c ∷ []) else none

-- The body of the loop behind `recv`.
unfoldable pub take_char : ℤ → Upload → Option Upload
unfolding store_char
take_char riga s =
    let newline = do
      n ← count_up s.line_counter
      line ← store_char b'\n' s.buff
      some (record s {
        buff = [];
        line_counter = n;
        sent = if not (is_riga riga n) then s.sent ++ line ∷ [] else s.sent;
      })
    in let other = do buff ← store_char s.tmp s.buff; some (record s { buff = buff })
      in if s.tmp == b'\n' then newline else other

unfoldable pub receive : ℤ → Recv → Upload → Option Upload
receive riga r s = do
  i ← add_int s.i (returned r)
  take_char riga (record s { i = i; tmp = received r s.tmp })

-- The loop `while (i < dim)`, over what the calls of `recv` return. With a list that is too short
-- the server waits for more.
unfoldable pub receive_file : ℤ → ℤ → List Recv → Upload → Option (Upload × List Recv)
receive_file riga dim [] s = some (s, [])
receive_file riga dim (r ∷ rs) s =
    let next = receive riga r s >>= receive_file riga dim rs in
    if ltb_ℤ s.i dim then next else some (s, r ∷ rs)

-- What one request comes to.
pub data Request : Type 0 where
  waiting : Upload → Request
  answered : List Bytes → List Recv → Request

-- The request behind its header: the loop, and the last line, which has no newline.
unfoldable pub serve_file : ℤ → ℤ → ℕ → List Recv → Option Request
serve_file riga dim tmp rs = do
  (s, rest) ←
      receive_file riga dim rs
        (record { i = pos 0; tmp = tmp; buff = []; line_counter = 0; sent = [] })
  let last = do
    n ← count_up s.line_counter
    some (answered (if not (is_riga riga n) then s.sent ++ s.buff ∷ [] else s.sent) rest)
  if ltb_ℤ s.i dim then some (waiting s) else last
