-- ===== src/Exchange/Tests.antt =====
-- Runs of the client and the server of the line service, and the theorems at concrete inputs.
use lab_reti_di_calcolatori.Base.{
  ℕ, ◌+◌, ◌*◌, ◌≤◌, ◌<◌, false, true, List, [], ◌∷◌, ◌++◌, ◌≡◌, ◌⊎◌, refl, arith, All, length,
  replicate,
}
use lab_reti_di_calcolatori.Base.Int.{pos}
use lab_reti_di_calcolatori.Base.CString.{Bytes, Without, codes}
use lab_reti_di_calcolatori.Lines.Text.{join, kept, lines}
use lab_reti_di_calcolatori.Exchange.{
  Config, Link, Client, System, Action, send, serve, last, recv, Outcome, moved, run, start,
}
use lab_reti_di_calcolatori.Exchange.Invariant.{Keeps, cfg}
use lab_reti_di_calcolatori.Exchange.Written.{run_writes}
use lab_reti_di_calcolatori.Exchange.Progress.{IsDone, CanMove, CanReceive, run_finishes}
use lab_reti_di_calcolatori.Exchange.Whole.{run_whole}
use lab_reti_di_calcolatori.Exchange.Moving.{run_moves}

abbrev zeros : Bytes
zeros = replicate 256 0

abbrev file : Bytes
file = codes "a\nbc\nd"

-- The second line is to be deleted.
abbrev actions : List Action
actions =
    send
    ∷ send
    ∷ serve
    ∷ serve
    ∷ recv 256
    ∷ send
    ∷ send
    ∷ serve
    ∷ send
    ∷ send
    ∷ serve
    ∷ serve
    ∷ serve
    ∷ last
    ∷ []

abbrev done : System
done = record {
  client = record { left = []; count_linee = 2; waiting = false };
  link = record {
    to_server = [];
    server = record { i = pos 6; tmp = b'd'; buff = codes "d"; line_counter = 3; sent = [] };
    finished = true;
    to_client = codes "d";
    buff = codes "a\n" ++ replicate 254 0;
    written = codes "a\n";
  };
}

runs : run (cfg (pos 2) 6) actions (start zeros 0 [] file) ≡ moved done
unfolding run lab_reti_di_calcolatori.Exchange.act lab_reti_di_calcolatori.Exchange.send_byte
    lab_reti_di_calcolatori.Exchange.serve_byte lab_reti_di_calcolatori.Exchange.store_chunk
    lab_reti_di_calcolatori.Exchange.take_chunk lab_reti_di_calcolatori.Base.CString.read_string
    lab_reti_di_calcolatori.Exchange.serve_last lab_reti_di_calcolatori.Lines.receive
    lab_reti_di_calcolatori.Lines.take_char lab_reti_di_calcolatori.Base.Int.count_up
    lab_reti_di_calcolatori.Base.Int.add_int
runs = refl

-- A run in which the answer comes in pieces, behind bytes of the file before.
run_writes_example :
    Keeps
      (λ (s : System). (rest : Bytes) × (s.link.written ++ rest ≡ codes "xa\nd"))
      (run
        (cfg (pos 2) 6)
        (send ∷ send ∷ serve ∷ recv 1 ∷ serve ∷ send ∷ [])
        (start zeros 0 (codes "x") file))
run_writes_example =
    run_writes (pos 2) zeros 0 (codes "x") file (send ∷ send ∷ serve ∷ recv 1 ∷ serve ∷ send ∷ [])
      (omega arith) (omega arith) (replicate 255 0, [], refl, refl) (ground arith)

run_finishes_example :
    (length actions ≤ 3 * 6 + 1)
    × ((IsDone done) ⊎ (CanMove (cfg (pos 2) 6) done ⊎ CanReceive done))
run_finishes_example =
    run_finishes (pos 2) zeros 0 [] file actions done (omega arith) (omega arith) runs

abbrev begun : List Action
begun = send ∷ send ∷ serve ∷ serve ∷ recv 1 ∷ []

abbrev midway : System
midway = record {
  client = record { left = codes "bc\nd"; count_linee = 1; waiting = false };
  link = record {
    to_server = [];
    server = record { i = pos 2; tmp = b'\n'; buff = []; line_counter = 1; sent = [] };
    finished = false;
    to_client = codes "\n";
    buff = codes "a" ++ replicate 255 0;
    written = codes "a";
  };
}

begun_runs : run (cfg (pos 2) 6) begun (start zeros 0 [] file) ≡ moved midway
unfolding run lab_reti_di_calcolatori.Exchange.act lab_reti_di_calcolatori.Exchange.send_byte
    lab_reti_di_calcolatori.Exchange.serve_byte lab_reti_di_calcolatori.Exchange.store_chunk
    lab_reti_di_calcolatori.Exchange.take_chunk lab_reti_di_calcolatori.Base.CString.read_string
    lab_reti_di_calcolatori.Lines.receive lab_reti_di_calcolatori.Lines.take_char
    lab_reti_di_calcolatori.Base.Int.count_up lab_reti_di_calcolatori.Base.Int.add_int
begun_runs = refl

run_moves_example : (IsDone midway) ⊎ CanMove (cfg (pos 2) 6) midway
run_moves_example =
    run_moves (pos 2) zeros 0 [] file begun midway (omega arith) (omega arith)
      (replicate 255 0, [], refl, refl) (ground arith) begun_runs

run_whole_example :
    (codes "a\n" ++ codes "d" ≡ join (kept (pos 2) 1 (lines file))) × Without b'\n' (codes "d")
run_whole_example =
    run_whole (pos 2) zeros 0 file actions done (omega arith) (omega arith) (omega arith) runs
      (refl, refl, refl, refl)
