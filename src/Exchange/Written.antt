-- ===== src/Exchange/Written.antt =====
-- What the client has written at every moment, and that no run is undefined.
use lab_reti_di_calcolatori.Base.{
  ℕ, ◌+◌, ◌<◌, ◌^◌, false, List, [], ◌∷◌, ◌++◌, ◌≡◌, length, Bool-cases, Option-cases, ◌==◌, inl,
  inr, All,
}
use lab_reti_di_calcolatori.Base.Int.{ℤ, ltb_ℤ, count_up}
use lab_reti_di_calcolatori.Base.CString.{Bytes}
use lab_reti_di_calcolatori.Lines.{byte, receive}
use lab_reti_di_calcolatori.Lines.Text.{join, lines, kept, Fits}
use lab_reti_di_calcolatori.Exchange.{
  Outcome, disabled, fault, moved, Config, Link, Client, System, Action, send, serve, last, recv,
  send_byte, serve_byte, serve_last, beside, act, run, start,
}
use lab_reti_di_calcolatori.Exchange.Invariant.{
  Keeps, Holds, Keeps-and_then, Keeps-weaker, Keeps-both, Keeps-with, future, cfg, Inv,
}
use lab_reti_di_calcolatori.Exchange.Owed.{Num}
use lab_reti_di_calcolatori.Exchange.Last.{store_chunk-Inv}
use lab_reti_di_calcolatori.Exchange.Printed.{take_chunk-Closed}
use lab_reti_di_calcolatori.Base.Array.{Closed}
use lab_reti_di_calcolatori.Exchange.Safety.{Sys, IsOther, other-Sys, store_chunk-Num, start-Sys}

-- `recv` finds fewer bytes than its array holds.
abbrev pub IsPiece : Action → Type 0
IsPiece (recv n) = n < 256
IsPiece _ = Unit

-- The server does not touch the client's array.
pub serve_byte-Closed :
    (c : Config) (l : Link) (b : Bytes)
    → Closed l.buff
    → Holds (λ (t : Link). Closed t.buff) (serve_byte c l b)
unfolding serve_byte
serve_byte-Closed c l [] h = tt
serve_byte-Closed c l (b ∷ rest) h = elim (Bool-cases (ltb_ℤ l.server.i c.dim)) [
  | inr past ↦ rw (past, Holds) tt
  | inl inside ↦ elim (Option-cases (receive c.riga (byte b) l.server)) [
    | inl wrong ↦ rw (inside, wrong, Holds) tt
    | inr (u, right) ↦ rw (inside, right, Holds) h
  ]
]

pub serve_last-Closed :
    (c : Config) (l : Link) → Closed l.buff → Holds (λ (t : Link). Closed t.buff) (serve_last c l)
unfolding serve_last
serve_last-Closed c l h = elim (Bool-cases (ltb_ℤ l.server.i c.dim)) [
  | inl inside ↦ rw (inside, Holds) tt
  | inr past ↦ elim (Bool-cases l.finished) [
    | inl done ↦ rw (past, done, Holds) tt
    | inr more ↦ elim (Option-cases (count_up l.server.line_counter)) [
      | inl wrong ↦ rw (past, more, wrong, Holds) tt
      | inr (n, right) ↦ rw (past, more, right, Holds) h
    ]
  ]
]

module _ (riga : ℤ) (dim : ℕ) (all : Bytes) where
  abbrev pub IsClosed : System → Type 0
  IsClosed s = Closed s.link.buff

  abbrev pub Both : System → Type 0
  Both s = Sys riga dim all s × IsClosed s

  send_byte-IsClosed :
      (left : Bytes) (s : System) → IsClosed s → Holds IsClosed (send_byte riga left s)
  unfolding send_byte
  send_byte-IsClosed [] s h = tt
  send_byte-IsClosed (c ∷ rest) s h = elim (Bool-cases s.client.waiting) [
    | inl waits ↦ rw (waits, Holds) tt
    | inr goes ↦ elim (Bool-cases (c == b'\n')) [
      | inr other ↦ rw (goes, other, Holds) h
      | inl newline ↦ elim (Option-cases (count_up s.client.count_linee)) [
        | inl wrong ↦ rw (goes, newline, wrong, Holds) tt
        | inr (n, right) ↦ rw (goes, newline, right, Holds) h
      ]
    ]
  ]

  beside-IsClosed :
      (c : Client) (o : Outcome Link)
      → Holds (λ (l : Link). Closed l.buff) o
      → Holds IsClosed (beside c o)
  beside-IsClosed c disabled h = tt
  beside-IsClosed c fault h = tt
  beside-IsClosed c (moved l) h = h

  beside-Both :
      (c : Client) (o : Outcome Link)
      → Keeps
          (λ l. (Inv riga dim all c.left l × Num riga c.count_linee c.waiting l) × Closed l.buff)
          o
      → Keeps Both (beside c o)
  beside-Both c disabled h = tt
  beside-Both c fault h = h
  beside-Both c (moved l) ((h, n), closed) = (record { link = h; num = n }, closed)

  other-IsClosed :
      (a : Action) (s : System) → IsOther a → IsClosed s → Holds IsClosed (act (cfg riga dim) a s)
  unfolding act
  other-IsClosed send s o h = send_byte-IsClosed s.client.left s h
  other-IsClosed serve s o h =
      beside-IsClosed s.client _ (serve_byte-Closed (cfg riga dim) s.link s.link.to_server h)
  other-IsClosed last s o h = beside-IsClosed s.client _ (serve_last-Closed (cfg riga dim) s.link h)
  other-IsClosed (recv n) s o h = absurd o

  other-Both : (a : Action) (s : System) → IsOther a → Both s → Keeps Both (act (cfg riga dim) a s)
  other-Both a s o (h, closed) =
      Keeps-with (Sys riga dim all) IsClosed (act (cfg riga dim) a s)
        (other-Sys riga dim all a s o h) (other-IsClosed a s o closed)

  act-Both : (a : Action) (s : System) → IsPiece a → Both s → Keeps Both (act (cfg riga dim) a s)
  unfolding act
  act-Both send s p h = other-Both send s tt h
  act-Both serve s p h = other-Both serve s tt h
  act-Both last s p h = other-Both last s tt h
  act-Both (recv n) s p (h, closed) = elim (Bool-cases s.client.waiting) [
    | inl waits ↦ rw waits (
        beside-Both (record s.client { waiting = false }) _
          (take_chunk-Closed _ n s.link p closed (
            Keeps-both _ _ _ (store_chunk-Inv riga dim all s.client.left n s.link h.link)
              (store_chunk-Num riga dim all n s.client.count_linee s.client.waiting s.link h.num))))
    | inr goes ↦ rw goes tt
  ]

  pub run-Both :
      (actions : List Action) (s : System)
      → All IsPiece actions
      → Both s
      → Keeps Both (run (cfg riga dim) actions s)
  unfolding run
  run-Both [] s p h = h
  run-Both (a ∷ actions) s (p, ps) h =
      Keeps-and_then Both Both (act (cfg riga dim) a s) (run (cfg riga dim) actions)
        (act-Both a s p h) (λ t k. run-Both actions t ps k)

-- Whatever the order in which the two act and the pieces in which the bytes arrive, no run of the two is
-- undefined, and at every moment the client has written a beginning of what it had not read before
-- followed by the file without the line that it named. The file has less than 2^31 - 1 bytes and lines of
-- at most 256. The client prints its array as a string behind every `recv`, which does not end it: the
-- array ends with a zero byte before, and every piece has fewer than its 256 bytes.
pub run_writes :
    (riga : ℤ) (array : Bytes) (tmp : ℕ) (earlier content : Bytes) (actions : List Action)
    → length content + 1 < 2 ^ 31
    → Fits (lines content)
    → Closed array
    → All IsPiece actions
    → Keeps
        (λ (s : System).
          (rest : Bytes) × (s.link.written ++ rest ≡ earlier ++ join (kept riga 1 (lines content))))
        (run (cfg riga (length content)) actions (start array tmp earlier content))
run_writes riga array tmp earlier content actions small fits closed pieces =
    let all = earlier ++ join (kept riga 1 (lines content)) in
    Keeps-weaker (λ s. Sys riga (length content) all s × Closed s.link.buff) _ _
      (λ s h. (
        s.link.to_client ++ future riga s.link (s.link.to_server ++ s.client.left),
        h.0.link.stream,
      ))
      (run-Both riga (length content) all actions (start array tmp earlier content) pieces
        (start-Sys riga array tmp earlier content small fits, closed))
