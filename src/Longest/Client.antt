-- ===== src/Longest/Client.antt =====
-- The client of the longest-word service, the main loop of esercitazione_3/es1/clientDatagram.c, at the server of
-- esercitazione_3/es1/serverDatagram.c. What the network does to each request is a parameter.
use lab_reti_di_calcolatori.Base.{ℕ, ◌+◌, Bool, true, false, Option, some, List, [], ◌∷◌, ◌>>=◌}
use lab_reti_di_calcolatori.Base.Int.{ℤ}
use lab_reti_di_calcolatori.Base.CString.{Bytes, scan_word, named}
use lab_reti_di_calcolatori.Longest.{Server, line_length, serve}
use lab_reti_di_calcolatori.Datagram.{Round, given_up, no_answer, reply, call_server}

-- What the client has printed, whether it waits for an answer for ever, and the server.
pub record Talk : Type 0 where
  pub shown : List ℤ
  pub blocked : Bool
  pub server : Server

module _ (open_file : ℕ → Bytes → Option Bytes) where
  -- One datagram at the server, whose new `result` is the answer.
  unfoldable pub answer_longest : Bytes → Server → Option (ℤ × Server)
  answer_longest datagram s = do t ← serve open_file datagram s; some (t.result, t)

  -- The main loop over the words of the input, from request `n`. `file_name` is the whole array, which is sent
  -- whole; the answers `queue` have come and not been received.
  unfoldable pub ask_longest : (ℕ → Round) → ℕ → List Bytes → Bytes → List ℤ → Server → Option Talk
  ask_longest net n [] file_name queue s = some (record { shown = []; blocked = false; server = s })
  ask_longest net n (word ∷ words) file_name queue s = do
    entered ← scan_word line_length word
    let array = named entered file_name
    called ← call_server answer_longest (net n) array queue s
    elim called.result [
      | given_up ↦ ask_longest net (n + 1) words array called.queue called.server
      | no_answer ↦ some (record { shown = []; blocked = true; server = called.server })
      | reply result ↦ do
        t ← ask_longest net (n + 1) words array called.queue called.server
        some (record t { shown = result ∷ t.shown })
    ]
