-- ===== src/Words.antt =====
-- The datagram service of exercise 4: esercitazione_4/src/server.c deletes a word from a file and
-- answers with the number of its occurrences; esercitazione_4/src/clientDatagram.c builds the
-- request. What the system calls answer is a parameter.
pub mod Tokens
pub mod Deletion
pub mod Again
pub mod Request
pub mod Serving
mod Tests
use lab_reti_di_calcolatori.Base.{
  ℕ, ◌+◌, ◌-◌, ◌^◌, Bool, true, false, ◌||◌, Option, none, some, List, [], ◌∷◌, ◌++◌, ltb, ◌==◌,
  if◌then◌else◌, ◌>>=◌, length, replicate,
}
use lab_reti_di_calcolatori.Base.Int.{ℤ, pos, negsuc, count_up}
use lab_reti_di_calcolatori.Base.CString.{Bytes, str_eq, read_string, skip, token, strtok}

abbrev pub line_length : ℕ
line_length = 256

-- `char c[LINE_LENGTH * 2]` of the server and `char p[LINE_LENGTH * 2]` of the client.
abbrev pub request_length : ℕ
request_length = 512

abbrev pub is_separator : ℕ → Bool
is_separator c = c == b' ' || c == b'\n'

-- The state of the reading loop: the first `i` bytes of `buf`, what was written to the temporary
-- file, and `result`.
pub record Scan : Type 0 where
  pub buf : Bytes
  pub out : Bytes
  pub result : ℕ

-- `buf[i] = c`, which faults past the array.
unfoldable pub store_byte : ℕ → Bytes → Option Bytes
store_byte c buf = if ltb (length buf) line_length then some (buf ++ c ∷ []) else none

-- `buf[i] = '\0'` and then `strcmp(p, buf) == 0`.
unfoldable pub is_word : Bytes → Bytes → Option Bool
unfolding store_byte
is_word p buf = do terminated ← store_byte 0 buf; s ← read_string terminated; some (str_eq p s)

-- The body of the reading loop for the byte `c`.
unfoldable pub scan_byte : Bytes → ℕ → Scan → Option Scan
unfolding is_word store_byte
scan_byte p c s =
    let separator = do
      found ← is_word p s.buf
      if found
          then count_up s.result
            >>= (λ n. some (record { buf = []; out = s.out ++ c ∷ []; result = n }))
          else some (record { buf = []; out = s.out ++ (s.buf ++ c ∷ []); result = s.result })
    in let letter = do buf ← store_byte c s.buf; some (record s { buf = buf })
      in if is_separator c then separator else letter

-- What is done with the rest of the buffer behind the loop.
unfoldable pub scan_end : Bytes → Scan → Option (Bytes × ℕ)
unfolding is_word
scan_end p s = do
  found ← is_word p s.buf
  if found then count_up s.result >>= (λ n. some (s.out, n)) else some (s.out ++ s.buf, s.result)

-- The reading loop over the bytes of the file, and its end.
unfoldable pub scan : Bytes → Bytes → Scan → Option (Bytes × ℕ)
scan p [] s = scan_end p s
scan p (c ∷ cs) s = scan_byte p c s >>= scan p cs

unfoldable pub delete_word : Bytes → Bytes → Option (Bytes × ℕ)
delete_word p content = scan p content (record { buf = []; out = []; result = 0 })

-- What the system answers: whether a path is a directory (`none` where `stat` fails), the bytes
-- that reading a path gives (`none` where `open` fails), and whether the temporary file opens.
pub record System : Type 0 where
  pub stat_dir : Bytes → Option Bool
  pub open_file : Bytes → Option Bytes
  pub tmp_opens : Bool

-- What one request leaves: the directory bit of `stats`, the content of the temporary file and the
-- path that it is renamed to, if it comes to that, and the answer.
pub record Served : Type 0 where
  pub stats_dir : Bool
  pub renamed : Option (Bytes × Bytes)
  pub answer : ℤ

abbrev pub refused : Bool → Served
refused dir = record { stats_dir = dir; renamed = none; answer = negsuc 0 }

-- The two `strtok` calls on the received bytes, in an array that was cleared.
unfoldable pub parse_request : Bytes → Option (Bytes × Bytes)
parse_request received = do
  c ← read_string (received ++ replicate (request_length - length received) 0)
  (f, rest) ← strtok b';' c
  (p, _) ← strtok b';' rest
  some (f, p)

-- The datagram branch of the main loop. A failing `stat` leaves `stats` as the last request left it.
-- `renamed` is what `rename` is called with; its result does not touch the answer.
unfoldable pub serve : System → Bool → Bytes → Option Served
serve sys stats_dir received = do
  (f, p) ← parse_request received
  let dir : Bool = elim (sys.stat_dir f) [ none ↦ stats_dir | some d ↦ d ]
  let rewrite = λ (content : Bytes). do
    (out, n) ← delete_word p content
    some (record { stats_dir = dir; renamed = some (f, out); answer = pos n })
  let open_tmp = λ (content : Bytes). if sys.tmp_opens then rewrite content else some (refused dir)
  let open_f : Option Served = elim (sys.open_file f) [
    | none ↦ some (refused dir)
    | some content ↦ open_tmp content
  ]
  if dir then some (refused dir) else open_f

-- The client's request: `strcat` of the file name, `;` and the word in a cleared array, which is
-- sent whole.
unfoldable pub build_request : Bytes → Bytes → Option Bytes
build_request file_name parola =
    let s = file_name ++ (b';' ∷ parola) in
    if ltb (length s) request_length
    then some (s ++ replicate (request_length - length s) 0)
    else none
