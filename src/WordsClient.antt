-- ===== src/WordsClient.antt =====
-- The client of the word deletion service, the main loop of esercitazione_4/src/clientDatagram.c, at the datagram
-- branch of esercitazione_4/src/server.c and the files of its system. What the network does to each request is
-- a parameter, and so is what a call of `rename` makes of the system, with `none` where it fails.
pub mod Store
pub mod Dialogue
mod Tests
use lab_reti_di_calcolatori.Base.{
  ℕ, ◌+◌, Bool, true, false, Option, none, some, List, [], ◌∷◌, ◌++◌, ◌>>=◌,
}
use lab_reti_di_calcolatori.Base.Int.{ℤ}
use lab_reti_di_calcolatori.Base.CString.{Bytes, scan_word}
use lab_reti_di_calcolatori.Words.{System, line_length, serve, build_request}
use lab_reti_di_calcolatori.Datagram.{Round, given_up, no_answer, reply, Called, call_server}

-- What the system of the server answers, and the directory bit of the server's `stats`.
pub record World : Type 0 where
  pub sys : System
  pub stats_dir : Bool

-- What the client has printed, whether it waits for an answer for ever, and the server.
pub record Talk : Type 0 where
  pub shown : List (Bytes × ℤ)
  pub blocked : Bool
  pub world : World

module _ (rename : Bytes × Bytes → System → Option System) where
  -- One datagram at the server: the answer, and the renaming if it comes to that. Where `rename` fails, the server
  -- only says so at its terminal: the answer is the same.
  unfoldable pub answer_datagram : Bytes → World → Option (ℤ × World)
  answer_datagram datagram w = do
    served ← serve w.sys w.stats_dir datagram
    let behind : Bytes × Bytes → System =
        λ r. elim (rename r w.sys) [ none ↦ w.sys | some sys ↦ sys ]
    let after : System = elim served.renamed [ none ↦ w.sys | some r ↦ behind r ]
    some (served.answer, record { sys = after; stats_dir = served.stats_dir })

  -- The main loop over the words of the input, from request `n`, where the answers `queue` have come and
  -- not been received.
  unfoldable pub converse : (ℕ → Round) → ℕ → List Bytes → List ℤ → World → Option Talk
  converse net n [] queue w = some (record { shown = []; blocked = false; world = w })
  converse net n (file ∷ []) queue w = do
    file_name ← scan_word line_length file
    some (record { shown = []; blocked = false; world = w })
  converse net n (file ∷ word ∷ words) queue w = do
    file_name ← scan_word line_length file
    parola ← scan_word line_length word
    request ← build_request file_name parola
    called ← call_server answer_datagram (net n) request queue w
    elim called.result [
      | given_up ↦ converse net (n + 1) words called.queue called.server
      | no_answer ↦ some (record { shown = []; blocked = true; world = called.server })
      | reply result ↦ do
        d ← converse net (n + 1) words called.queue called.server
        some (record d { shown = (file_name, result) ∷ d.shown })
    ]
