-- ===== src/Polling/Tests.antt =====
-- A run of the client that asks, and the theorem at concrete inputs.
use lab_reti_di_calcolatori.Base.{◌++◌, replicate, refl, false, List, [], ◌∷◌, ◌≡◌, ◌⊎◌, arith}
use lab_reti_di_calcolatori.Base.Int.{pos}
use lab_reti_di_calcolatori.Base.CString.{Bytes, codes}
use lab_reti_di_calcolatori.Exchange.Invariant.{Keeps, cfg}
use lab_reti_di_calcolatori.Polling.{
  System, Action, send, ask, drain, serve, last, poll_run, poll_start,
}
use lab_reti_di_calcolatori.Polling.Complete.{poll_run_writes}

abbrev actions : List Action
actions =
    send
    ∷ send
    ∷ serve
    ∷ ask 0
    ∷ send
    ∷ serve
    ∷ serve
    ∷ send
    ∷ last
    ∷ drain 2
    ∷ drain 9
    ∷ drain 0
    ∷ []

-- The file is "a\nb", and no line is deleted.
poll_run_writes_example :
    Keeps
      (λ (s : System).
        ((rest : Bytes) × (s.link.written ++ rest ≡ codes "a\nb"))
        × ((s.link.finished ≡ false) ⊎ (s.link.written ++ s.link.to_client ≡ codes "a\nb")))
      (poll_run (cfg (pos 0) 3) actions (poll_start (replicate 256 0) 0 [] (codes "a\nb")))
poll_run_writes_example =
    poll_run_writes (pos 0) (replicate 256 0) 0 [] (codes "a\nb") actions (omega arith)
      (omega arith) (replicate 255 0, [], refl, refl) (ground arith)
