-- ===== src/Dispatch/Tests.antt =====
-- A run of the main loop, and the theorems at concrete inputs.
use lab_reti_di_calcolatori.Base.{
  ℕ, ◌+◌, ◌-◌, ◌≤◌, Bool, true, false, none, some, List, [], ◌∷◌, map, ◌≡◌, refl, ltb, lt→ltb,
  le→ltb, if◌then◌else◌, arith,
}
use lab_reti_di_calcolatori.Base.Int.{pos}
use lab_reti_di_calcolatori.Base.CString.{codes, str_eq, read_string, skip, token, strtok}
use lab_reti_di_calcolatori.Base.Stream.{eof, failed}
use lab_reti_di_calcolatori.Words.{
  System, is_word, scan_byte, scan_end, scan, delete_word, parse_request, serve,
}
use lab_reti_di_calcolatori.Dispatch.{
  Event, interrupted, broken, ready, Parent, Log, serve_stream, serve_datagram, main_loop,
}
use lab_reti_di_calcolatori.Dispatch.Isolation.{datagram_only, main_loop-datagram_only}
use lab_reti_di_calcolatori.Dispatch.Connections.{connected, main_loop_bounded}

-- Every path is a file with this text, which opens while fewer than five connections are open.
abbrev files : ℕ → System
files n = record {
  stat_dir = λ path. some false;
  open_file = λ path. if ltb n 5 then some (codes "a b a") else none;
  tmp_opens = true;
}

files-IsSteady : (k : ℕ) → k ≤ 4 → files k ≡ files 0
files-IsSteady k h = rw (lt→ltb k 5 (omega arith))

-- One connection is accepted.
abbrev accepts : ℕ → Bool
accepts n = ltb n 1

abbrev events : List Event
events =
    interrupted
    ∷ ready files true (some (eof ∷ [])) none
    ∷ ready files true (some (eof ∷ [])) (some (some (codes "f;a")))
    ∷ broken
    ∷ []

abbrev first : Parent
first = record { stats_dir = false; connections = 0 }

abbrev log : Log
log = record {
  started =
      record { accepted = true; stats_dir = false; stream = eof ∷ [] }
      ∷ record { accepted = false; stats_dir = false; stream = failed ∷ [] }
      ∷ [];
  answered =
      record { stats_dir = false; renamed = some (codes "f", codes " b "); answer = pos 2 } ∷ [];
}

main_loop_runs : main_loop accepts events first ≡ some log
unfolding main_loop serve_stream serve_datagram serve parse_request delete_word scan scan_byte
    scan_end is_word read_string skip token strtok str_eq lab_reti_di_calcolatori.Base.Int.count_up
    lab_reti_di_calcolatori.Words.store_byte
main_loop_runs = refl

main_loop-datagram_only_example :
    main_loop accepts (map datagram_only events) (record { stats_dir = false; connections = 4 })
    ≡ some (record { started = []; answered = log.answered })
main_loop-datagram_only_example =
    main_loop-datagram_only accepts 4 events first log 4
      (tt, (files-IsSteady, (files-IsSteady, (tt, tt)))) (omega arith) (omega arith) main_loop_runs

main_loop_bounded_example : connected log.started ≤ 1 - 0
main_loop_bounded_example =
    main_loop_bounded accepts 1 (λ n h. le→ltb n 1 h) events first log main_loop_runs
