-- ===== src/Listing/Connection.antt =====
-- The child process of esercitazione_4/src/server.c: the names that a client sends over its connection, one
-- after the other.
use lab_reti_di_calcolatori.Base.{
  ℕ, zero, suc, ◌+◌, Bool, true, false, Option, none, some, List, [], ◌∷◌, ◌++◌, ◌>>=◌, length,
}
use lab_reti_di_calcolatori.Base.CString.{Bytes, read_string}
use lab_reti_di_calcolatori.Base.Stream.{Recv, byte, recv_into}
use lab_reti_di_calcolatori.Listing.{System, Message, list_directory}

-- What the child has written, and whether it has come to its end; else it waits for a name.
pub record Written : Type 0 where
  pub messages : List Message
  pub ended : Bool

-- The loop by the calls of `read` that may still come, of which call `k` finds `arrived k` bytes. `sys k` is
-- what the system answers for name `k`. `nome_dir` is the whole array, which is never cleared.
unfoldable pub serve_names :
    ℕ → (ℕ → ℕ) → (ℕ → System) → ℕ → Bytes → Bool → List Recv → Option Written
serve_names zero arrived sys k nome_dir stats_dir rs = none
serve_names (suc rounds) arrived sys k nome_dir stats_dir [] =
    some (record { messages = []; ended = false })
serve_names (suc rounds) arrived sys k nome_dir stats_dir (byte c ∷ rs) = do
  (received, rest) ← recv_into (arrived k) nome_dir (byte c ∷ rs)
  nome ← read_string received
  l ← list_directory (sys k) nome stats_dir
  later ← serve_names rounds arrived sys (k + 1) received l.stats_dir rest
  some (record later { messages = l.written ++ later.messages })
serve_names (suc rounds) arrived sys k nome_dir stats_dir (_ ∷ rs) =
    some (record { messages = []; ended = true })

-- The child from its start: a call takes at least one of the events that come.
abbrev pub serve_child : (ℕ → ℕ) → (ℕ → System) → Bytes → Bool → List Recv → Option Written
serve_child arrived sys nome_dir stats_dir rs =
    serve_names (length rs + 1) arrived sys 0 nome_dir stats_dir rs
