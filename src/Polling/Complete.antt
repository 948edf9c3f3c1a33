-- ===== src/Polling/Complete.antt =====
-- What the client that asks has written.
use lab_reti_di_calcolatori.Base.{
  ℕ, ◌+◌, ◌<◌, ◌^◌, Bool, true, false, List, [], ◌∷◌, ◌++◌, ◌≡◌, refl, length, Bool-cases, inl, inr,
  ◌⊎◌, append-nil, All,
}
use lab_reti_di_calcolatori.Base.Int.{ℤ}
use lab_reti_di_calcolatori.Base.CString.{Bytes}
use lab_reti_di_calcolatori.Lines.Text.{join, lines, kept, Fits}
use lab_reti_di_calcolatori.Exchange.{Outcome, disabled, fault, moved, Link, take_chunk}
use lab_reti_di_calcolatori.Exchange.Printed.{take_chunk-Closed}
use lab_reti_di_calcolatori.Base.Array.{Closed}
use lab_reti_di_calcolatori.Exchange.Written.{serve_byte-Closed, serve_last-Closed}
use lab_reti_di_calcolatori.Exchange.Invariant.{
  Keeps, Keeps-and_then, Keeps-weaker, Keeps-with, future, cfg, Inv,
}
use lab_reti_di_calcolatori.Exchange.Server.{serve_byte-Inv}
use lab_reti_di_calcolatori.Exchange.Last.{serve_last-Inv, store_chunk-Inv}
use lab_reti_di_calcolatori.Exchange.Safety.{sent_to-Inv, start-Sys}
use lab_reti_di_calcolatori.Polling.{
  Mode, sending, draining, stopped, System, Action, send, ask, drain, serve, last, when, is_sending,
  is_asking, is_draining, send_next, selected, served, poll_act, poll_run, poll_start,
}

-- `recv` finds fewer bytes than its array holds.
abbrev pub IsPiece : Action → Type 0
IsPiece (ask n) = n < 256
IsPiece (drain n) = n < 256
IsPiece _ = Unit

Keeps-when :
    {A : Type 0} (P : A → Type 0) (b : Bool) (o : Outcome A) → Keeps P o → Keeps P (when b o)
Keeps-when P true o h = h
Keeps-when P false o h = tt

module _ (riga : ℤ) (dim : ℕ) (all : Bytes) where
  -- The invariant of the connection, with an array whose last byte is zero.
  abbrev Safe : Bytes → Link → Type 0
  Safe left l = Inv riga dim all left l × Closed l.buff

  abbrev LinkInv : System → Type 0
  LinkInv s = Safe s.left s.link

  send_next-LinkInv :
      (left : Bytes) (s : System) → s.left ≡ left → LinkInv s → LinkInv (send_next left s)
  unfolding send_next
  send_next-LinkInv [] s e h = h
  send_next-LinkInv (c ∷ rest) s e (h, closed) =
      (sent_to-Inv riga dim all c rest s.link (rw e at h), closed)

  selected-LinkInv :
      (s : System) (got timed_out : Mode) (o : Outcome Link)
      → LinkInv s
      → Keeps (Safe s.left) o
      → Keeps LinkInv (selected s got timed_out o)
  selected-LinkInv s got timed_out disabled h k = h
  selected-LinkInv s got timed_out fault h k = k
  selected-LinkInv s got timed_out (moved l) h k = k

  served-LinkInv :
      (s : System) (o : Outcome Link) → Keeps (Safe s.left) o → Keeps LinkInv (served s o)
  served-LinkInv s disabled k = tt
  served-LinkInv s fault k = k
  served-LinkInv s (moved l) k = k

  take_chunk-Safe :
      (left : Bytes) (n : ℕ) (l : Link) → n < 256 → Safe left l → Keeps (Safe left) (take_chunk n l)
  take_chunk-Safe left n l few (h, closed) =
      take_chunk-Closed (Inv riga dim all left) n l few closed
        (store_chunk-Inv riga dim all left n l h)

  poll_act-LinkInv :
      (a : Action) (s : System)
      → IsPiece a
      → LinkInv s
      → Keeps LinkInv (poll_act (cfg riga dim) a s)
  unfolding poll_act
  poll_act-LinkInv send s p h =
      Keeps-when LinkInv (is_sending s.mode) (moved (send_next s.left s))
        (send_next-LinkInv s.left s refl h)
  poll_act-LinkInv (ask n) s p h =
      Keeps-when LinkInv (is_asking s.mode) _
        (selected-LinkInv s sending sending _ h (take_chunk-Safe s.left n s.link p h))
  poll_act-LinkInv (drain n) s p h =
      Keeps-when LinkInv (is_draining s.mode) _
        (selected-LinkInv s draining stopped _ h (take_chunk-Safe s.left n s.link p h))
  poll_act-LinkInv serve s p (h, closed) = served-LinkInv s _ (
      Keeps-with (Inv riga dim all s.left) (λ (l : Link). Closed l.buff) _
        (serve_byte-Inv riga dim all s.left s.link h)
        (serve_byte-Closed (cfg riga dim) s.link s.link.to_server closed))
  poll_act-LinkInv last s p (h, closed) = served-LinkInv s _ (
      Keeps-with (Inv riga dim all s.left) (λ (l : Link). Closed l.buff) _
        (serve_last-Inv riga dim all s.left s.link h)
        (serve_last-Closed (cfg riga dim) s.link closed))

  poll_run-LinkInv :
      (actions : List Action) (s : System)
      → All IsPiece actions
      → LinkInv s
      → Keeps LinkInv (poll_run (cfg riga dim) actions s)
  unfolding poll_run
  poll_run-LinkInv [] s p h = h
  poll_run-LinkInv (a ∷ actions) s (p, ps) h =
      Keeps-and_then LinkInv LinkInv (poll_act (cfg riga dim) a s) (poll_run (cfg riga dim) actions)
        (poll_act-LinkInv a s p h) (λ t k. poll_run-LinkInv actions t ps k)

-- Whatever the order in which the client that asks and the server act, the pieces in which the bytes
-- arrive and the moments at which `select` times out, no run is undefined, and the client has written
-- a beginning of what it had not read before followed by the file without the line that it named;
-- once the server has sent its last line, what is missing of that text is what has been sent and not
-- read, so that nothing is missing if the client has read all. The file has less than 2^31 - 1 bytes
-- and lines of at most 256. The client prints its array as a string behind every `recv`, which does not
-- end it: the array ends with a zero byte before, and every piece has fewer than its 256 bytes.
pub poll_run_writes :
    (riga : ℤ) (array : Bytes) (tmp : ℕ) (earlier content : Bytes) (actions : List Action)
    → length content + 1 < 2 ^ 31
    → Fits (lines content)
    → Closed array
    → All IsPiece actions
    → Keeps
        (λ (s : System).
          let text = earlier ++ join (kept riga 1 (lines content)) in
          ((rest : Bytes) × (s.link.written ++ rest ≡ text))
          × ((s.link.finished ≡ false) ⊎ (s.link.written ++ s.link.to_client ≡ text)))
        (poll_run (cfg riga (length content)) actions (poll_start array tmp earlier content))
poll_run_writes riga array tmp earlier content actions small fits closed pieces =
    let text = earlier ++ join (kept riga 1 (lines content)) in
    Keeps-weaker (LinkInv riga (length content) text) _ _
      (λ s h. (
        (s.link.to_client ++ future riga s.link (s.link.to_server ++ s.left), h.0.stream),
        elim (Bool-cases s.link.finished) [
          | inl done ↦ inr (rw (append-nil s.link.to_client) at (rw done at h.0.stream))
          | inr more ↦ inl more
        ],
      ))
      (poll_run-LinkInv riga (length content) text actions (poll_start array tmp earlier content)
        pieces ((start-Sys riga array tmp earlier content small fits).link, closed))
