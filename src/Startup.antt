-- ===== src/Startup.antt =====
-- How the socket programs start: the checks of their arguments and the calls that make their
-- sockets, up to the main loop of each. Exercise 3: esercitazione_3/es1/serverDatagram.c,
-- esercitazione_3/es1/clientDatagram.c, esercitazione_3/es2/serverTCP.c,
-- esercitazione_3/es2/clientTCP.c, esercitazione_3/es2/clientTCPselect.c; exercise 4: esercitazione_4/src/server.c,
-- esercitazione_4/src/clientDatagram.c, esercitazione_4/src/clientTCP.c. What the calls return is a
-- parameter.
pub mod Programs
pub mod Ports
pub mod Arguments
mod Tests
use lab_reti_di_calcolatori.Base.{
  ℕ, zero, suc, ◌+◌, ◌-◌, ◌*◌, ◌^◌, Bool, true, false, not, ◌||◌, ◌&&◌, Option, none, some, List,
  [], ◌∷◌, ◌==◌, ltb, leb, if◌then◌else◌, ◌>>=◌,
}
use lab_reti_di_calcolatori.Base.Int.{ℤ, pos, negsuc, ltb_ℤ, pos_part}
use lab_reti_di_calcolatori.Base.CString.{Bytes}

pub data Kind : Type 0 where
  stream : Kind
  datagram : Kind

-- The calls on sockets, with the descriptor and the port where they have one. `setsockopt` asks for
-- SO_REUSEADDR.
pub data Call : Type 0 where
  socket : Kind → Call
  setsockopt : ℤ → Call
  bind : ℤ → ℕ → Call
  listen : ℤ → ℕ → Call
  connect : ℤ → ℕ → Call

-- What the system answers: the value of each call, none of which a program makes twice, and whether
-- `gethostbyname` finds a name.
pub record System : Type 0 where
  pub returns : Call → ℤ
  pub finds_host : Bytes → Bool

-- A program exits with a code, or is ready with its sockets.
pub data Outcome : Type 0 where
  exit : ℕ → Outcome
  ready : List ℤ → Outcome

-- The outcome and the calls made, in order.
pub record Run : Type 0 where
  pub outcome : Outcome
  pub calls : List Call

abbrev pub exits : ℕ → Run
exits code = record { outcome = exit code; calls = [] }

abbrev pub is_digit : ℕ → Bool
is_digit c = not (ltb c b'0' || ltb b'9' c)

-- The loop that looks for a character that is no digit.
unfoldable pub all_digits : Bytes → Bool
all_digits [] = true
all_digits (c ∷ cs) = let rest = all_digits cs in if is_digit c then rest else false

abbrev pub is_space : ℕ → Bool
is_space c = c == b' ' || (leb 9 c && leb c 13)

unfoldable pub skip_spaces : Bytes → Bytes
skip_spaces [] = []
skip_spaces (c ∷ cs) = let rest = skip_spaces cs in if is_space c then rest else c ∷ cs

-- The value of the digits in front, behind digits of the value `n`.
unfoldable pub digits_value : Bytes → ℕ → ℕ
digits_value [] n = n
digits_value (c ∷ cs) n =
    let more = digits_value cs (10 * n + (c - b'0')) in if is_digit c then more else n

-- `atoi` on what follows the spaces: a sign, and the digits behind it.
unfoldable pub signed_value : Bytes → Option ℤ
signed_value [] = some (pos 0)
signed_value (c ∷ cs) =
    let plain = digits_value (c ∷ cs) 0 in
    let behind = digits_value cs 0 in
    let non_negative = λ (n : ℕ). if ltb n (2 ^ 31) then some (pos n) else none in
    let negated : ℕ → ℤ = λ (n : ℕ). if n == 0 then pos 0 else negsuc (n - 1) in
    let negative = λ (n : ℕ). if leb n (2 ^ 31) then some (negated n) else none in
    if c == b'-'
    then negative behind
    else if c == b'+'
    then non_negative behind
    else non_negative plain

-- `atoi`, which is undefined where the number is no `int`.
unfoldable pub atoi : Bytes → Option ℤ
atoi s = signed_value (skip_spaces s)

abbrev pub is_bad_port : ℤ → Bool
is_bad_port port = ltb_ℤ port (pos 1024) || ltb_ℤ (pos 65535) port

-- A port through `atoi` alone, with the exit code of a bad one.
unfoldable pub lenient_port : ℕ → Bytes → (ℕ → Run) → Option Run
lenient_port code s next = do
  port ← atoi s
  some (if is_bad_port port then exits code else next (pos_part port))

-- A port that must consist of digits.
unfoldable pub strict_port : ℕ → Bytes → (ℕ → Run) → Option Run
strict_port code s next = if all_digits s then lenient_port code s next else some (exits code)

-- A call, with the exit code where it fails.
unfoldable pub attempt : System → Call → ℕ → (ℤ → Run) → Run
attempt sys c code next =
    let value = sys.returns c in
    let later = next value in
    let stop : Run = record { outcome = exit code; calls = c ∷ [] } in
    let go_on : Run = record { outcome = later.outcome; calls = c ∷ later.calls } in
    if ltb_ℤ value (pos 0) then stop else go_on

-- A call whose failure is only reported.
unfoldable pub try : System → Call → (ℤ → Run) → Run
try sys c next =
    let later = next (sys.returns c) in record { outcome = later.outcome; calls = c ∷ later.calls }
