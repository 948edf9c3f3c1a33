-- ===== src/Exchange/Progress.antt =====
-- The two never wait for each other, and come to an end.
use lab_reti_di_calcolatori.Base.{
  ℕ, ◌+◌, ◌*◌, ◌≤◌, ◌<◌, ◌^◌, min, true, false, not, List, [], ◌∷◌, ◌++◌, ◌==◌, ◌≡◌, refl, ap, ◌∙◌,
  arith, length, take, drop, Bool-cases, inl, inr, ◌⊎◌,
}
use lab_reti_di_calcolatori.Base.Int.{ℤ, count_up_lem}
use lab_reti_di_calcolatori.Base.CString.{Bytes}
use lab_reti_di_calcolatori.Lines.{is_riga}
use lab_reti_di_calcolatori.Lines.Text.{join, lines, kept, Fits}
use lab_reti_di_calcolatori.Exchange.{
  Outcome, moved, Config, Link, Client, System, Action, send, serve, last, send_byte, sent_to,
  serve_byte, store_chunk, beside, act, run, start,
}
use lab_reti_di_calcolatori.Exchange.Invariant.{cfg}
use lab_reti_di_calcolatori.Exchange.Server.{serve_newline, serve_other}
use lab_reti_di_calcolatori.Exchange.Last.{serve_last_runs}
use lab_reti_di_calcolatori.Exchange.Measure.{run-measure}
use lab_reti_di_calcolatori.Exchange.Safety.{Sys, run-Sys, start-Sys, count_small}

-- The client is past its loop and the server past its last line.
abbrev pub IsDone : System → Type 0
IsDone s =
    (s.client.left ≡ [])
    × (s.client.waiting ≡ false)
    × (s.link.to_server ≡ [])
    × (s.link.finished ≡ true)

abbrev pub CanMove : Config → System → Type 0
CanMove cfg s = (a : Action) × (t : System) × (act cfg a s ≡ moved t)

-- The client stands before `recv` and bytes have arrived for it. What `recv` stores is printed, which is
-- undefined for an array without a zero byte.
abbrev pub CanReceive : System → Type 0
CanReceive s = (s.client.waiting ≡ true) × (t : Link) × (store_chunk 256 s.link ≡ moved t)

link_moves :
    (c : Config) (a : Action) (k : Client) (s : System) (o : Outcome Link) (l : Link)
    → act c a s ≡ beside k o
    → o ≡ moved l
    → CanMove c s
link_moves c a k s o l same runs = (a, record { client = k; link = l }, same ∙ ap (beside k) runs)

chunk_moves : (l : Link) → 1 ≤ length l.to_client → (t : Link) × (store_chunk 256 l ≡ moved t)
unfolding store_chunk
chunk_moves l h =
    let some_here : (min 256 (min 256 (length l.to_client)) == 0) ≡ false = ground arith in
    let k = min 256 (min 256 (length l.to_client)) in
    (
      record l {
        to_client = drop k l.to_client;
        buff = take k l.to_client ++ drop k l.buff;
        written = l.written ++ take k l.to_client;
      },
      rw some_here refl,
    )

module _ (riga : ℤ) (dim : ℕ) (all : Bytes) where
  can_serve :
      (b : Bytes) (c : ℕ) (s : System)
      → s.link.to_server ≡ c ∷ b
      → Sys riga dim all s
      → CanMove (cfg riga dim) s
  unfolding act
  can_serve b c s e h = elim (Bool-cases (c == b'\n')) [
    | inl newline ↦
        let c' : c ≡ b'\n' = ground arith in
        let e' = rw c' at e in
        link_moves _ serve s.client s _ _ refl (
          ap (serve_byte (cfg riga dim) s.link) e'
          ∙ serve_newline riga dim all s.client.left b s.link e' h.link)
    | inr other ↦ link_moves _ serve s.client s _ _ refl (
        ap (serve_byte (cfg riga dim) s.link) e
        ∙ serve_other riga dim all s.client.left b c s.link other e h.link)
  ]

  can_recv :
      (s : System)
      → s.link.to_server ≡ []
      → s.client.waiting ≡ true
      → Sys riga dim all s
      → CanReceive s
  can_recv s e waits h =
      let owes = rw e at (h.num.owes waits) in
      let (t, stored) = chunk_moves s.link (omega arith) in (waits, t, stored)

  can_send :
      (c : ℕ) (rest : Bytes) (s : System)
      → s.client.left ≡ c ∷ rest
      → s.client.waiting ≡ false
      → Sys riga dim all s
      → CanMove (cfg riga dim) s
  unfolding act send_byte
  can_send c rest s e goes h = elim (Bool-cases (c == b'\n')) [
    | inl newline ↦
        let small = count_small riga dim all c rest s e h in
        let n = s.client.count_linee + 1 in
        (
          send,
          record {
            client = record { left = rest; count_linee = n; waiting = not (is_riga riga n) };
            link = sent_to s.link c;
          },
          rw e (rw (goes, newline) (rw (count_up_lem s.client.count_linee small) refl)),
        )
    | inr other ↦ (
      send,
      record {
        client = record { left = rest; count_linee = s.client.count_linee; waiting = false };
        link = sent_to s.link c;
      },
      rw e (rw (goes, other) refl),
    )
  ]

  can_last :
      (s : System)
      → s.client.left ≡ []
      → s.link.to_server ≡ []
      → s.link.finished ≡ false
      → Sys riga dim all s
      → CanMove (cfg riga dim) s
  unfolding act
  can_last s e b more h =
      link_moves _ last s.client s _ _ refl
        (serve_last_runs riga dim all s.client.left s.link (rw (b, e) refl) more h.link)

  pub can_move :
      (s : System) → Sys riga dim all s → (IsDone s) ⊎ (CanMove (cfg riga dim) s ⊎ CanReceive s)
  can_move s h = go s.link.to_server s.client.left refl refl
    where
      go :
          (b left : Bytes)
          → s.link.to_server ≡ b
          → s.client.left ≡ left
          → (IsDone s) ⊎ (CanMove (cfg riga dim) s ⊎ CanReceive s)
      go (c ∷ b) left e d = inr (inl (can_serve b c s e h))
      go [] (c ∷ rest) e d = elim (Bool-cases s.client.waiting) [
        | inl waits ↦ inr (inr (can_recv s e waits h))
        | inr goes ↦ inr (inl (can_send c rest s d goes h))
      ]
      go [] [] e d = elim (Bool-cases s.client.waiting) [
        | inl waits ↦ inr (inr (can_recv s e waits h))
        | inr goes ↦ elim (Bool-cases s.link.finished) [
          | inl done ↦ inl (d, goes, e, done)
          | inr more ↦ inr (inl (can_last s d e more h))
        ]
      ]

-- A run of the two on a file of `n` bytes has at most `3 * n + 1` actions, and where it has not come
-- to its end, the client past its loop and the server past its last line, one of the two can act, or
-- the client stands before `recv` and bytes have arrived for it: they never wait for each other. The file has less than 2^31 - 1 bytes and lines of at most 256.
pub run_finishes :
    (riga : ℤ) (array : Bytes) (tmp : ℕ) (earlier content : Bytes) (actions : List Action)
    (s : System)
    → length content + 1 < 2 ^ 31
    → Fits (lines content)
    → run (cfg riga (length content)) actions (start array tmp earlier content) ≡ moved s
    → (length actions ≤ 3 * length content + 1)
      × ((IsDone s) ⊎ (CanMove (cfg riga (length content)) s ⊎ CanReceive s))
run_finishes riga array tmp earlier content actions s small fits runs =
    let all = earlier ++ join (kept riga 1 (lines content)) in
    let reached =
      run-Sys riga (length content) all actions (start array tmp earlier content)
        (start-Sys riga array tmp earlier content small fits) in
    let sys : Sys riga (length content) all s = rw runs at reached in
    let less =
      run-measure (cfg riga (length content)) actions (start array tmp earlier content) s runs in
    (omega arith, can_move riga (length content) all s sys)
