-- ===== src/Lines/Tests.antt =====
-- Runs of the line service, and the theorems at concrete inputs.
use lab_reti_di_calcolatori.Base.{
  Option, Bool, false, ℕ, some, none, List, [], ◌∷◌, ◌++◌, map, ◌≡◌, refl, inl, inr, arith,
  replicate, length-replicate, true,
}
use lab_reti_di_calcolatori.Base.Int.{ℤ, pos, negsuc}
use lab_reti_di_calcolatori.Base.CString.{Bytes, codes}
use lab_reti_di_calcolatori.Lines.{
  byte, eof, Upload, answered, receive_file, serve_file, receive, take_char,
}
use lab_reti_di_calcolatori.Lines.Text.{join}
use lab_reti_di_calcolatori.Lines.Transfer.{serve_file_deletes, serve_file_returns_all}
use lab_reti_di_calcolatori.Lines.Connection.{Ask, Vars, Replies, serve_connection}
use lab_reti_di_calcolatori.Lines.Requests.{requests_bytes}
use lab_reti_di_calcolatori.Lines.Accepting.{Arrival, Event, interrupt, error, arrive, Service}
use lab_reti_di_calcolatori.Lines.Truncated.{receive_file_truncated}

abbrev file : Bytes
file = codes "one\ntwo\nend"

serve_file_deletes_example :
    serve_file (pos 2) (pos 11) 0 (map byte file ++ eof ∷ [])
    ≡ some (answered (codes "one\n" ∷ codes "end" ∷ []) (eof ∷ []))
serve_file_deletes_example =
    serve_file_deletes 0 file (codes "one\n" ∷ []) (codes "end" ∷ []) (codes "two\n") (eof ∷ [])
      (omega arith) (omega arith) refl

serve_file_runs :
    serve_file (pos 2) (pos 11) 0 (map byte file ++ eof ∷ [])
    ≡ some (answered (codes "one\n" ∷ codes "end" ∷ []) (eof ∷ []))
unfolding serve_file receive_file receive take_char lab_reti_di_calcolatori.Base.Int.add_int
    lab_reti_di_calcolatori.Base.Int.count_up
serve_file_runs = refl

serve_file_whole :
    (sent : List Bytes) × (serve_file (pos 9) (pos 11) 0 (map byte file ++ [])
      ≡ some (answered sent []))
    × (join sent ≡ file)
serve_file_whole =
    serve_file_returns_all (pos 9) 0 file [] (omega arith) (omega arith) (inr (omega arith))

-- The client announced 10 bytes and closed the connection after "one".
abbrev cut_off : Upload
cut_off = record { i = pos 3; tmp = b'e'; buff = codes "one"; line_counter = 0; sent = [] }

receive_file_truncated_example : receive_file (pos 1) (pos 10) (replicate 254 eof) cut_off ≡ none
receive_file_truncated_example =
    receive_file_truncated (pos 1) 3 10 254 cut_off refl (omega arith) (omega arith) refl
      (omega arith) (omega arith)

abbrev ask_1 : Ask
ask_1 = record { nome_file = replicate 256 b'a'; riga = pos 2; content = file }

abbrev ask_2 : Ask
ask_2 = record { nome_file = replicate 256 b'b'; riga = negsuc 0; content = codes "\n" }

abbrev uninitialised : Vars
uninitialised = record {
  nome_file = replicate 256 7;
  riga = replicate 4 7;
  dim = replicate 4 7;
  tmp = 7;
  header = 0;
}

abbrev client : Bool → Arrival
client named = record {
  forks = true;
  named = named;
  vars = uninitialised;
  headers = λ h k. 256;
  stream = map byte (requests_bytes (ask_1 ∷ [])) ++ eof ∷ [];
}

-- The child for a client without a name accepts the next connection, and then the server meets an error.
abbrev events : List Event
events =
    interrupt 0
    ∷ arrive 0 (client false)
    ∷ arrive 1 (client true)
    ∷ error 0
    ∷ arrive 1 (client true)
    ∷ []

abbrev served_one : Option Replies
served_one = some (record { sent = codes "one\n" ∷ codes "end" ∷ []; closed = true })

-- The connection of `client true`, as its child serves it.
abbrev replies : Option Replies
replies = serve_connection (client true).headers (client true).vars (client true).stream

abbrev ended : Service
ended = record { accepting = false ∷ true ∷ []; served = replies ∷ replies ∷ [] }
