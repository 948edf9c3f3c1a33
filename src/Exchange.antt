-- ===== src/Exchange.antt =====
-- The client and the server of the line service at work on one file: the loop of
-- esercitazione_3/es2/clientTCP.c against the loop of esercitazione_3/es2/serverTCP.c, over the two
-- streams of a TCP connection, as a system whose actions come in any order.
pub mod Invariant
pub mod Server
pub mod Last
pub mod Owed
pub mod Safety
pub mod Printed
pub mod Written
pub mod Moving
pub mod Measure
pub mod Progress
pub mod Calm
pub mod Paced
pub mod Whole
mod Tests
use lab_reti_di_calcolatori.Base.{
  ℕ, ◌+◌, Bool, true, false, not, Option, none, some, List, [], ◌∷◌, ◌++◌, ◌==◌, if◌then◌else◌,
  length, min, take, drop,
}
use lab_reti_di_calcolatori.Base.Int.{ℤ, pos, ltb_ℤ, count_up}
use lab_reti_di_calcolatori.Base.CString.{Bytes, read_string}
use lab_reti_di_calcolatori.Lines.{byte, Upload, is_riga, receive}
use lab_reti_di_calcolatori.Lines.Text.{join}

-- An action that cannot be taken now, an undefined run, or the next state.
pub data Outcome (A : Type 0) : Type 0 where
  disabled : Outcome A
  fault : Outcome A
  moved : A → Outcome A

abbrev pub and_then : {A B : Type 0} → Outcome A → (A → Outcome B) → Outcome B
and_then disabled next = disabled
and_then fault next = fault
and_then (moved a) next = next a

-- What the client has announced: the number of the line and the size of the file.
pub record Config : Type 0 where
  pub riga : ℤ
  pub dim : ℤ

-- The connection: the bytes under way to the server, the variables of its loop, whether it is past
-- the loop, the bytes under way to the client, the client's array and what it has written to its new file.
pub record Link : Type 0 where
  pub to_server : Bytes
  pub server : Upload
  pub finished : Bool
  pub to_client : Bytes
  pub buff : Bytes
  pub written : Bytes

-- What the server has sent goes to the stream.
abbrev pub flush : Link → Upload → Link
flush l u = record l { server = record u { sent = [] }; to_client = l.to_client ++ join u.sent }

module _ (cfg : Config) where
  -- The body of the server's loop for the next byte.
  unfoldable pub serve_byte : Link → Bytes → Outcome Link
  serve_byte l [] = disabled
  serve_byte l (c ∷ rest) =
      let served : Outcome Link = elim (receive cfg.riga (byte c) l.server) [
        | none ↦ fault
        | some u ↦ moved (flush (record l { to_server = rest }) u)
      ] in
      if ltb_ℤ l.server.i cfg.dim then served else disabled

  -- Behind the server's loop: the last line, which has no newline.
  unfoldable pub serve_last : Link → Outcome Link
  serve_last l =
      let last = λ (n : ℕ).
        flush (record l { finished = true })
          (record l.server {
            line_counter = n;
            sent = if not (is_riga cfg.riga n) then l.server.buff ∷ [] else [];
          }) in
      let served : Outcome Link = elim (count_up l.server.line_counter) [
        | none ↦ fault
        | some n ↦ moved (last n)
      ] in
      if ltb_ℤ l.server.i cfg.dim then disabled else if l.finished then disabled else served

-- The client's `recv` of at most 256 bytes into the front of its array and the `write` of them to the new
-- file, where `n` bytes have arrived. The bytes of the array behind them stay.
unfoldable pub store_chunk : ℕ → Link → Outcome Link
store_chunk n l =
    let k = min n (min 256 (length l.to_client)) in
    if k == 0
    then disabled
    else moved (record l {
      to_client = drop k l.to_client;
      buff = take k l.to_client ++ drop k l.buff;
      written = l.written ++ take k l.to_client;
    })

-- `printf("%s", buff)` runs out of an array without a zero byte.
abbrev pub printed : Link → Outcome Link
printed l = elim (read_string l.buff) [ none ↦ fault | some line ↦ moved l ]

-- `recv`, `printf` and `write`.
unfoldable pub take_chunk : ℕ → Link → Outcome Link
take_chunk n l = and_then (store_chunk n l) printed

-- The client in its loop: the bytes of the file that it has not read, `countLinee`, and whether it
-- stands before `recv`.
pub record Client : Type 0 where
  pub left : Bytes
  pub count_linee : ℕ
  pub waiting : Bool

pub record System : Type 0 where
  pub client : Client
  pub link : Link

pub data Action : Type 0 where
  send : Action
  serve : Action
  last : Action
  recv : ℕ → Action

abbrev pub sent_to : Link → ℕ → Link
sent_to l c = record l { to_server = l.to_server ++ c ∷ [] }

-- The body of the client's loop up to `recv`.
unfoldable pub send_byte : ℤ → Bytes → System → Outcome System
send_byte riga [] s = disabled
send_byte riga (c ∷ rest) s =
    let sent : ℕ → Bool → Outcome System = λ (n : ℕ) (w : Bool). moved (record {
      client = record { left = rest; count_linee = n; waiting = w };
      link = sent_to s.link c;
    }) in
    let newline : Outcome System = elim (count_up s.client.count_linee) [
      | none ↦ fault
      | some n ↦ sent n (not (is_riga riga n))
    ] in
    if s.client.waiting
    then disabled
    else if c == b'\n'
    then newline
    else sent s.client.count_linee false

-- The client in the state `c` beside what becomes of the connection.
abbrev pub beside : Client → Outcome Link → Outcome System
beside c disabled = disabled
beside c fault = fault
beside c (moved l) = moved (record { client = c; link = l })

unfoldable pub act : Config → Action → System → Outcome System
act cfg send s = send_byte cfg.riga s.client.left s
act cfg serve s = beside s.client (serve_byte cfg s.link s.link.to_server)
act cfg last s = beside s.client (serve_last cfg s.link)
act cfg (recv n) s =
    let received = beside (record s.client { waiting = false }) (take_chunk n s.link) in
    if s.client.waiting then received else disabled

unfoldable pub run : Config → List Action → System → Outcome System
run cfg [] s = moved s
run cfg (a ∷ rest) s = and_then (act cfg a s) (run cfg rest)

-- The two behind the header of a request for a file, where the client has not read `earlier` yet, and
-- the client's array and the server's `tmp` are left from before.
abbrev pub start : Bytes → ℕ → Bytes → Bytes → System
start array tmp earlier content = record {
  client = record { left = content; count_linee = 0; waiting = false };
  link = record {
    to_server = [];
    server = record { i = pos 0; tmp = tmp; buff = []; line_counter = 0; sent = [] };
    finished = false;
    to_client = earlier;
    buff = array;
    written = [];
  };
}
