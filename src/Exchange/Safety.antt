-- ===== src/Exchange/Safety.antt =====
-- What holds in every state that the two reach.
use lab_reti_di_calcolatori.Base.{
  ℕ, min, ◌+◌, ◌<◌, ◌^◌, Bool, false, not, List, [], ◌∷◌, ◌++◌, ◌==◌, ◌≡◌, refl, arith, length,
  length-append, append_assoc, Bool-cases, Option-cases, inl, inr,
}
use lab_reti_di_calcolatori.Base.Int.{ℤ, count_up_lem}
use lab_reti_di_calcolatori.Base.CString.{Bytes, read_string}
use lab_reti_di_calcolatori.Lines.{is_riga}
use lab_reti_di_calcolatori.Lines.Text.{join, lines, kept, Fits, prepend_nil-lines}
use lab_reti_di_calcolatori.Exchange.{
  Outcome, disabled, fault, moved, Link, Client, System, Action, send, serve, last, recv, send_byte,
  sent_to, store_chunk, take_chunk, printed, and_then, beside, act, run, start,
}
use lab_reti_di_calcolatori.Exchange.Invariant.{Keeps, Holds, Keeps-Holds, Holds-and_then, cfg, Inv}
use lab_reti_di_calcolatori.Exchange.Server.{serve_byte-Inv}
use lab_reti_di_calcolatori.Exchange.Last.{serve_last-Inv, store_chunk-Inv}
use lab_reti_di_calcolatori.Exchange.Owed.{
  newlines-append, newlines-le-length, owed-append, Num, serve_byte-Num, serve_last-Num,
}

-- All actions but those of the client's `recv`.
abbrev pub IsOther : Action → Type 0
IsOther (recv n) = ⊥
IsOther _ = Unit

module _ (riga : ℤ) (dim : ℕ) (all : Bytes) where
  pub record Sys (s : System) : Type 0 where
    pub link : Inv riga dim all s.client.left s.link
    pub num : Num riga s.client.count_linee s.client.waiting s.link

  beside-Sys :
      (c : Client) (o : Outcome Link)
      → Keeps (Inv riga dim all c.left) o
      → Keeps (Num riga c.count_linee c.waiting) o
      → Keeps Sys (beside c o)
  beside-Sys c disabled h n = tt
  beside-Sys c fault h n = h
  beside-Sys c (moved l) h n = record { link = h; num = n }

  -- What the client has stored is printed, if the array ends.
  pub printed-Sys :
      (c : Client) (o : Outcome Link)
      → Keeps (Inv riga dim all c.left) o
      → Keeps (Num riga c.count_linee c.waiting) o
      → Holds Sys (beside c (and_then o printed))
  printed-Sys c disabled h n = tt
  printed-Sys c fault h n = tt
  printed-Sys c (moved l) h n = elim (Option-cases (read_string l.buff)) [
    | inl endless ↦ rw (endless, Holds) tt
    | inr (line, ends) ↦ rw (ends, Holds) (record { link = h; num = n })
  ]

  pub sent_to-Inv :
      (c : ℕ) (rest : Bytes) (l : Link)
      → Inv riga dim all (c ∷ rest) l
      → Inv riga dim all rest (sent_to l c)
  sent_to-Inv c rest l h =
      let same = append_assoc l.to_server (c ∷ []) rest in
      record {
        read = h.read;
        counted = h.counted;
        whole = rw same h.whole;
        small = h.small;
        dim_small = h.dim_small;
        flushed = h.flushed;
        fits = rw same h.fits;
        ended = λ done. rw same (h.ended done);
        stream = rw same h.stream;
      }

  pub still_open :
      (c : ℕ) (rest : Bytes) (l : Link) → Inv riga dim all (c ∷ rest) l → l.finished ≡ false
  still_open c rest l h = elim (Bool-cases l.finished) [
    | inl done ↦
        let none_left = h.ended done in
        let size = length-append l.to_server (c ∷ rest) in absurd (omega arith)
    | inr more ↦ more
  ]

  pub count_small :
      (c : ℕ) (rest : Bytes) (s : System)
      → s.client.left ≡ c ∷ rest
      → Sys s
      → s.client.count_linee + 1 < 2 ^ 31
  count_small c rest s e h =
      let inv = rw e at h.link in
      let more = still_open c rest s.link inv in
      let size = length-append s.link.to_server (c ∷ rest) in
      omega (
        arith,
        h.num.numbered more,
        inv.small more,
        inv.whole,
        inv.dim_small,
        newlines-le-length s.link.to_server,
      )

  -- The client sends a newline, and then waits unless it is that of the line to delete.
  newline-Num :
      (rest : Bytes) (s : System)
      → s.client.left ≡ b'\n' ∷ rest
      → Sys s
      → Num riga
          (s.client.count_linee + 1)
          (not (is_riga riga (s.client.count_linee + 1)))
          (sent_to s.link b'\n')
  newline-Num rest s e h =
      let more = still_open b'\n' rest s.link (rw e at h.link) in
      let count = h.num.numbered more in
      record {
        numbered = λ _. let n = newlines-append s.link.to_server b'\n' in omega arith;
        owes = λ w.
            let line : is_riga riga (s.client.count_linee + 1) ≡ false = ground arith in
            let o = rw line at (
              owed-append riga s.link.server.line_counter (s.client.count_linee + 1)
                s.link.to_server b'\n' (omega arith)) in
            omega arith;
      }

  other-Num :
      (c : ℕ) (rest : Bytes) (s : System)
      → (c == b'\n') ≡ false
      → s.client.left ≡ c ∷ rest
      → Sys s
      → Num riga s.client.count_linee false (sent_to s.link c)
  other-Num c rest s other e h =
      let n = rw other at (newlines-append s.link.to_server c) in
      record {
        numbered = λ more. let count = h.num.numbered more in omega arith;
        owes = λ w. absurd (cc);
      }

  send_byte-Sys :
      (left : Bytes) (s : System) → s.client.left ≡ left → Sys s → Keeps Sys (send_byte riga left s)
  unfolding send_byte
  send_byte-Sys [] s e h = tt
  send_byte-Sys (c ∷ rest) s e h = elim (Bool-cases s.client.waiting) [
    | inl waits ↦ rw waits tt
    | inr goes ↦
        let inv = sent_to-Inv c rest s.link (rw e at h.link) in
        elim (Bool-cases (c == b'\n')) [
          | inl newline ↦
              let c' : c ≡ b'\n' = ground arith in
              let e' = rw c' at e in
              rw (goes, newline)
                (rw (count_up_lem s.client.count_linee (count_small c rest s e h))
                  (record { link = inv; num = rw c' (newline-Num rest s e' h) }))
          | inr other ↦ rw (goes, other) (record { link = inv; num = other-Num c rest s other e h })
        ]
  ]

  pub store_chunk-Num :
      (n count : ℕ) (waiting : Bool) (l : Link)
      → Num riga count waiting l
      → Keeps (Num riga count false) (store_chunk n l)
  unfolding store_chunk
  store_chunk-Num n count waiting l h =
      elim (Bool-cases (min n (min 256 (length l.to_client)) == 0)) [
        | inl none_here ↦ rw none_here tt
        | inr some_here ↦ rw some_here (record { numbered = h.numbered; owes = λ w. absurd (cc) })
      ]

  pub other-Sys : (a : Action) (s : System) → IsOther a → Sys s → Keeps Sys (act (cfg riga dim) a s)
  unfolding act
  other-Sys send s o h = send_byte-Sys s.client.left s refl h
  other-Sys serve s o h =
      beside-Sys s.client _ (serve_byte-Inv riga dim all s.client.left s.link h.link) (
        serve_byte-Num riga dim all s.client.left s.client.count_linee s.client.waiting s.link
          h.link h.num)
  other-Sys last s o h =
      beside-Sys s.client _ (serve_last-Inv riga dim all s.client.left s.link h.link) (
        serve_last-Num riga dim all s.client.left s.client.count_linee s.client.waiting s.link
          h.link h.num)
  other-Sys (recv n) s o h = absurd o

  pub act-Sys : (a : Action) (s : System) → Sys s → Holds Sys (act (cfg riga dim) a s)
  unfolding act take_chunk
  act-Sys send s h = Keeps-Holds Sys _ (other-Sys send s tt h)
  act-Sys serve s h = Keeps-Holds Sys _ (other-Sys serve s tt h)
  act-Sys last s h = Keeps-Holds Sys _ (other-Sys last s tt h)
  act-Sys (recv n) s h = elim (Bool-cases s.client.waiting) [
    | inl waits ↦ rw waits (
        printed-Sys (record s.client { waiting = false }) _
          (store_chunk-Inv riga dim all s.client.left n s.link h.link)
          (store_chunk-Num n s.client.count_linee s.client.waiting s.link h.num))
    | inr goes ↦ rw goes tt
  ]

  pub run-Sys :
      (actions : List Action) (s : System) → Sys s → Holds Sys (run (cfg riga dim) actions s)
  unfolding run
  run-Sys [] s h = h
  run-Sys (a ∷ actions) s h =
      Holds-and_then Sys Sys (act (cfg riga dim) a s) (run (cfg riga dim) actions) (act-Sys a s h)
        (run-Sys actions)

pub start-Sys :
    (riga : ℤ) (array : Bytes) (tmp : ℕ) (earlier content : Bytes)
    → length content + 1 < 2 ^ 31
    → Fits (lines content)
    → Sys riga
        (length content)
        (earlier ++ join (kept riga 1 (lines content)))
        (start array tmp earlier content)
start-Sys riga array tmp earlier content small fits = record {
  link = record {
    read = 0;
    counted = refl;
    whole = omega arith;
    small = λ _. omega arith;
    dim_small = small;
    flushed = refl;
    fits = rw (prepend_nil-lines content) fits;
    ended = λ done. absurd (cc);
    stream = rw (prepend_nil-lines content) refl;
  };
  num = record { numbered = λ _. refl; owes = λ w. absurd (cc) };
}
