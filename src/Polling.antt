-- ===== src/Polling.antt =====
-- The client of the line service that asks before it reads, the loops of
-- esercitazione_3/es2/clientTCPselect.c, against the loop of esercitazione_3/es2/serverTCP.c. The
-- server and the connection are those of `Exchange`.
pub mod Complete
pub mod Client
pub mod Edits
mod Tests
use lab_reti_di_calcolatori.Base.{ℕ, Bool, true, false, List, [], ◌∷◌, ◌==◌, if◌then◌else◌}
use lab_reti_di_calcolatori.Base.CString.{Bytes}
use lab_reti_di_calcolatori.Exchange.{
  Outcome, disabled, fault, moved, and_then, Config, Link, serve_byte, serve_last, take_chunk,
  sent_to, start,
}

-- Where the client stands: in the loop that sends, before the `select` behind a newline, in the loop
-- that reads the rest, or past it.
pub data Mode : Type 0 where
  sending : Mode
  asking : Mode
  draining : Mode
  stopped : Mode

pub record System : Type 0 where
  pub left : Bytes
  pub mode : Mode
  pub link : Link

-- What the two do. `ask n` and `drain n` are a `select` for which `n` bytes have arrived, and the
-- `recv` and `write` behind it; for none, it has timed out.
pub data Action : Type 0 where
  send : Action
  ask : ℕ → Action
  drain : ℕ → Action
  serve : Action
  last : Action

-- The body of the client's first loop up to `select`, or the end of the loop.
unfoldable pub send_next : Bytes → System → System
send_next [] s = record s { mode = draining }
send_next (c ∷ rest) s = record {
  left = rest;
  mode = if c == b'\n' then asking else sending;
  link = sent_to s.link c;
}

-- The client goes on in one mode if it has read, and in the other if `select` has timed out.
abbrev pub selected : System → Mode → Mode → Outcome Link → Outcome System
selected s got timed_out disabled = moved (record s { mode = timed_out })
selected s got timed_out fault = fault
selected s got timed_out (moved l) = moved (record s { mode = got; link = l })

abbrev pub served : System → Outcome Link → Outcome System
served s disabled = disabled
served s fault = fault
served s (moved l) = moved (record s { link = l })

abbrev pub when : {A : Type 0} → Bool → Outcome A → Outcome A
when true o = o
when false o = disabled

abbrev pub is_sending : Mode → Bool
is_sending sending = true
is_sending _ = false

abbrev pub is_asking : Mode → Bool
is_asking asking = true
is_asking _ = false

abbrev pub is_draining : Mode → Bool
is_draining draining = true
is_draining _ = false

unfoldable pub poll_act : Config → Action → System → Outcome System
poll_act cfg send s = when (is_sending s.mode) (moved (send_next s.left s))
poll_act cfg (ask n) s = when (is_asking s.mode) (selected s sending sending (take_chunk n s.link))
poll_act cfg (drain n) s =
    when (is_draining s.mode) (selected s draining stopped (take_chunk n s.link))
poll_act cfg serve s = served s (serve_byte cfg s.link s.link.to_server)
poll_act cfg last s = served s (serve_last cfg s.link)

unfoldable pub poll_run : Config → List Action → System → Outcome System
poll_run cfg [] s = moved s
poll_run cfg (a ∷ rest) s = and_then (poll_act cfg a s) (poll_run cfg rest)

-- The two behind the header of a request, as for the other client.
abbrev pub poll_start : Bytes → ℕ → Bytes → Bytes → System
poll_start array tmp earlier content = record {
  left = content;
  mode = sending;
  link = (start array tmp earlier content).link;
}
