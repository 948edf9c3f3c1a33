-- ===== src/Exchange/Whole.antt =====
-- A run in which every line arrives whole, from a connection that has nothing to be read.
use lab_reti_di_calcolatori.Base.{
  ℕ, ◌+◌, ◌≤◌, ◌<◌, ◌^◌, true, false, List, [], ◌∷◌, ◌++◌, ◌==◌, ◌≡◌, refl, arith, length,
  append-nil, Bool-cases, Option-cases, inl, inr, All,
}
use lab_reti_di_calcolatori.Base.Int.{ℤ, count_up_lem}
use lab_reti_di_calcolatori.Base.CString.{Bytes, read_string, Without}
use lab_reti_di_calcolatori.Lines.Text.{join, lines, kept, Fits}
use lab_reti_di_calcolatori.Exchange.{
  Outcome, disabled, fault, moved, Link, Client, System, Action, send, serve, last, recv, send_byte,
  beside, act, run, start, take_chunk, printed, and_then,
}
use lab_reti_di_calcolatori.Exchange.Invariant.{
  Keeps, Holds, Keeps-Holds, Holds-and_then, Holds-both, cfg,
}
use lab_reti_di_calcolatori.Exchange.Safety.{Sys, act-Sys, start-Sys, still_open, count_small}
use lab_reti_di_calcolatori.Exchange.Progress.{IsDone}
use lab_reti_di_calcolatori.Exchange.Calm.{Calm, serve_byte-Calm, serve_last-Calm}
use lab_reti_di_calcolatori.Exchange.Paced.{store_chunk-Calm, newline_sent-Calm, other_sent-Calm}

-- `recv` finds all that is under way, as far as its array holds it.
abbrev pub IsWhole : Action → Type 0
IsWhole (recv n) = 256 ≤ n
IsWhole _ = Unit

module _ (riga : ℤ) (dim : ℕ) (all : Bytes) where
  abbrev IsCalm : System → Type 0
  IsCalm s = Calm riga s.client.waiting s.link

  beside-IsCalm :
      (c : Client) (o : Outcome Link) → Keeps (Calm riga c.waiting) o → Keeps IsCalm (beside c o)
  beside-IsCalm c disabled h = tt
  beside-IsCalm c fault h = h
  beside-IsCalm c (moved l) h = h

  send_byte-IsCalm :
      (left : Bytes) (s : System)
      → s.client.left ≡ left
      → Sys riga dim all s
      → IsCalm s
      → Keeps IsCalm (send_byte riga left s)
  unfolding send_byte
  send_byte-IsCalm [] s e h calm = tt
  send_byte-IsCalm (c ∷ rest) s e h calm = elim (Bool-cases s.client.waiting) [
    | inl waits ↦ rw waits tt
    | inr goes ↦
        let more = still_open riga dim all c rest s.link (rw e at h.link) in
        let calm' : Calm riga false s.link = rw goes at calm in
        elim (Bool-cases (c == b'\n')) [
          | inl newline ↦
              let c' : c ≡ b'\n' = ground arith in
              rw (goes, newline)
                (rw (count_up_lem s.client.count_linee (count_small riga dim all c rest s e h)) (
                  rw c' (
                    newline_sent-Calm riga s.client.count_linee s.link (h.num.numbered more) more
                      calm')))
          | inr other ↦ rw (goes, other) (other_sent-Calm riga c s.link other more calm')
        ]
  ]

  printed-IsCalm :
      (c : Client) (o : Outcome Link)
      → Keeps (Calm riga c.waiting) o
      → Holds IsCalm (beside c (and_then o printed))
  printed-IsCalm c disabled h = tt
  printed-IsCalm c fault h = tt
  printed-IsCalm c (moved l) h = elim (Option-cases (read_string l.buff)) [
    | inl endless ↦ rw (endless, Holds) tt
    | inr (line, ends) ↦ rw (ends, Holds) h
  ]

  act-IsCalm :
      (a : Action) (s : System)
      → IsWhole a
      → Sys riga dim all s
      → IsCalm s
      → Holds IsCalm (act (cfg riga dim) a s)
  unfolding act take_chunk
  act-IsCalm send s w h calm = Keeps-Holds IsCalm _ (send_byte-IsCalm s.client.left s refl h calm)
  act-IsCalm serve s w h calm = Keeps-Holds IsCalm _ (
      beside-IsCalm s.client _
        (serve_byte-Calm riga dim all s.client.left s.client.waiting s.link h.link calm))
  act-IsCalm last s w h calm = Keeps-Holds IsCalm _ (
      beside-IsCalm s.client _
        (serve_last-Calm riga dim all s.client.left s.client.waiting s.link h.link calm))
  act-IsCalm (recv n) s w h calm = elim (Bool-cases s.client.waiting) [
    | inl waits ↦
        let calm' : Calm riga true s.link = rw waits at calm in
        rw waits (
          printed-IsCalm (record s.client { waiting = false }) _
            (store_chunk-Calm riga n s.link w calm'))
    | inr goes ↦ rw goes tt
  ]

  run-IsCalm :
      (actions : List Action) (s : System)
      → All IsWhole actions
      → Sys riga dim all s
      → IsCalm s
      → Holds (λ (t : System). Sys riga dim all t × IsCalm t) (run (cfg riga dim) actions s)
  unfolding run
  run-IsCalm [] s w h calm = (h, calm)
  run-IsCalm (a ∷ actions) s (w, ws) h calm =
      Holds-and_then (λ (t : System). Sys riga dim all t × IsCalm t) _ (act (cfg riga dim) a s)
        (run (cfg riga dim) actions)
        (Holds-both _ _ _ (act-Sys riga dim all a s h) (act-IsCalm a s w h calm))
        (λ t p. run-IsCalm actions t ws p.0 p.1)

-- Where every line arrives whole and nothing was left to be read, a run that has come to its end has
-- written the file without the line that the client named, up to the last newline: what is left of
-- that text has no newline, and the client has not read it. The file has less than 2^31 - 1 bytes
-- and lines of at most 256.
pub run_whole :
    (riga : ℤ) (array : Bytes) (tmp : ℕ) (content : Bytes) (actions : List Action) (s : System)
    → length content + 1 < 2 ^ 31
    → Fits (lines content)
    → All IsWhole actions
    → run (cfg riga (length content)) actions (start array tmp [] content) ≡ moved s
    → IsDone s
    → (s.link.written ++ s.link.to_client ≡ join (kept riga 1 (lines content)))
      × Without b'\n' s.link.to_client
run_whole riga array tmp content actions s small fits whole runs (no_left, goes, none_sent, done) =
    let all = join (kept riga 1 (lines content)) in
    let first : Calm riga false (start array tmp [] content).link = record {
      clean = tt;
      quiet = λ w m. (refl, refl);
      tail = λ w d. tt;
      pending = λ w. absurd (cc);
      settled = λ w. absurd (cc);
    } in
    let reached =
      run-IsCalm riga (length content) all actions (start array tmp [] content) whole
        (start-Sys riga array tmp [] content small fits) first in
    let both : Sys riga (length content) all s × Calm riga s.client.waiting s.link =
      rw runs at reached in
    (rw (append-nil s.link.to_client) at (rw done at both.0.link.stream), both.1.tail goes done)
