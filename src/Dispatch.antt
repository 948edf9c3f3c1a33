-- ===== src/Dispatch.antt =====
-- The main loop of the server of exercise 4, esercitazione_4/src/server.c: `select` on the two sockets, a
-- child process for each connection, and the datagram service in the parent. What the system calls
-- give is a parameter.
pub mod Isolation
pub mod Connections
mod Tests
use lab_reti_di_calcolatori.Base.{
  ℕ, ◌+◌, Bool, Option, none, some, List, [], ◌∷◌, ◌++◌, if◌then◌else◌, ◌>>=◌,
}
use lab_reti_di_calcolatori.Base.CString.{Bytes}
use lab_reti_di_calcolatori.Base.Stream.{Recv, failed}
use lab_reti_di_calcolatori.Words.{System, Served, serve}

-- A `select` that a signal has interrupted, one that has failed, or one that has come back: what the
-- system answers then where this many connections are open, whether `fork` succeeds, what comes over the next connection if there is one, and
-- the datagram if there is one, with `none` inside where `recvfrom` fails.
pub data Event : Type 0 where
  interrupted : Event
  broken : Event
  ready : (ℕ → System) → Bool → Option (List Recv) → Option (Option Bytes) → Event

-- The directory bit of `stats` and the number of connections that the parent has accepted. It never closes
-- one.
pub record Parent : Type 0 where
  pub stats_dir : Bool
  pub connections : ℕ

-- A child process at its start: whether its connection was accepted, its copy of the bit, and what its
-- calls of `read` give.
pub record Child : Type 0 where
  pub accepted : Bool
  pub stats_dir : Bool
  pub stream : List Recv

pub record Turn : Type 0 where
  pub parent : Parent
  pub children : List Child
  pub answers : List Served

-- The stream socket. A `read` from the connection -1 fails; a `fork` that fails leaves the parent alone.
unfoldable pub serve_stream : (ℕ → Bool) → Bool → Option (List Recv) → Parent → Turn
serve_stream accepts forks none p = record { parent = p; children = []; answers = [] }
serve_stream accepts forks (some stream) p =
    let accepted = accepts p.connections in
    let child : Child = record {
      accepted = accepted;
      stats_dir = p.stats_dir;
      stream = if accepted then stream else failed ∷ [];
    } in
    record {
      parent = record p { connections = if accepted then p.connections + 1 else p.connections };
      children = if forks then child ∷ [] else [];
      answers = [];
    }

-- The datagram socket.
unfoldable pub serve_datagram : System → Option (Option Bytes) → Turn → Option Turn
serve_datagram sys (some (some received)) t = do
  served ← serve sys t.parent.stats_dir received
  some (record t {
    parent = record { stats_dir = served.stats_dir; connections = t.parent.connections };
    answers = served ∷ [];
  })
serve_datagram sys _ t = some t

-- What the loop leaves: the children that it has started and the answers to datagrams.
pub record Log : Type 0 where
  pub started : List Child
  pub answered : List Served

-- The loop, over what the calls of `select` and the calls behind them give. `accepts n` is whether
-- `accept` succeeds where `n` connections are open.
unfoldable pub main_loop : (ℕ → Bool) → List Event → Parent → Option Log
main_loop accepts [] p = some (record { started = []; answered = [] })
main_loop accepts (interrupted ∷ events) p = main_loop accepts events p
main_loop accepts (broken ∷ events) p = some (record { started = []; answered = [] })
main_loop accepts (ready sys forks stream datagram ∷ events) p = do
  let behind = serve_stream accepts forks stream p
  turn ← serve_datagram (sys behind.parent.connections) datagram behind
  log ← main_loop accepts events turn.parent
  some (record { started = turn.children ++ log.started; answered = turn.answers ++ log.answered })
