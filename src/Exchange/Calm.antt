-- ===== src/Exchange/Calm.antt =====
-- Where every line arrives whole: no more than one line is on its way to the client or owed to it.
use lab_reti_di_calcolatori.Base.{
  ℕ, ◌+◌, ◌≤◌, Bool, true, false, not, [], ◌∷◌, ◌++◌, ◌==◌, if◌then◌else◌, ◌≡◌, refl, arith, length,
  length-append, append-nil, Bool-cases, inl, inr, ◌⊎◌, All-append,
}
use lab_reti_di_calcolatori.Base.Int.{ℤ}
use lab_reti_di_calcolatori.Base.CString.{Bytes, Without}
use lab_reti_di_calcolatori.Lines.{is_riga}
use lab_reti_di_calcolatori.Lines.Text.{join}
use lab_reti_di_calcolatori.Exchange.{Link, flush, serve_byte, serve_last}
use lab_reti_di_calcolatori.Exchange.Invariant.{Keeps, cfg, Inv, not_finished}
use lab_reti_di_calcolatori.Exchange.Server.{
  serve_newline, serve_other, behind_newline, behind_other,
}
use lab_reti_di_calcolatori.Exchange.Last.{serve_last_cases, serve_last_runs, behind_last}
use lab_reti_di_calcolatori.Exchange.Owed.{owed, front_nil}

-- What the server's buffer holds when it has taken these bytes.
abbrev pub residual : Bytes → Bytes → Bytes
residual buff [] = buff
residual buff (c ∷ cs) = if c == b'\n' then residual [] cs else residual (buff ++ c ∷ []) cs

pub residual_newline : (buff b : Bytes) → residual buff (b ++ b'\n' ∷ []) ≡ []
residual_newline buff [] = refl
residual_newline buff (c ∷ b) = elim (Bool-cases (c == b'\n')) [
  | inl newline ↦ rw newline (residual_newline [] b)
  | inr other ↦ rw other (residual_newline (buff ++ c ∷ []) b)
]

sent_clean :
    (b : Bool) (buff : Bytes)
    → Without b'\n' buff
    → Without b'\n' (join (if b then buff ∷ [] else []))
sent_clean true buff h = rw (append-nil buff) h
sent_clean false buff h = tt

sent_nothing : (b : Bool) (buff : Bytes) → buff ≡ [] → join (if b then buff ∷ [] else []) ≡ []
sent_nothing true buff h = rw (append-nil buff) h
sent_nothing false buff h = refl

module _ (riga : ℤ) where
  pub record Calm (waiting : Bool) (l : Link) : Type 0 where
    pub clean : Without b'\n' l.server.buff
    pub quiet :
        waiting ≡ false
        → l.finished ≡ false
        → (l.to_client ≡ []) × (owed riga l.server.line_counter l.to_server ≡ 0)
    pub tail : waiting ≡ false → l.finished ≡ true → Without b'\n' l.to_client
    pub pending :
        waiting ≡ true
        → ((l.to_client ≡ []) × (owed riga l.server.line_counter l.to_server ≡ 1))
          ⊎ ((length l.to_client ≤ 256) × (owed riga l.server.line_counter l.to_server ≡ 0))
    pub settled : waiting ≡ true → residual l.server.buff l.to_server ≡ []

  module _ (dim : ℕ) (all : Bytes) where
    newline-Calm :
        (left rest : Bytes) (waiting : Bool) (l : Link)
        → l.to_server ≡ b'\n' ∷ rest
        → Inv riga dim all left l
        → Calm waiting l
        → Calm waiting (flush (record l { to_server = rest }) (behind_newline riga l.server))
    newline-Calm left rest waiting l e h calm =
        let more = not_finished riga dim all left rest b'\n' l e h in
        let fits = rw e at h.fits in
        let line_size = length-append l.server.buff (b'\n' ∷ []) in
        let nil = append-nil (l.server.buff ++ b'\n' ∷ []) in
        elim (Bool-cases (is_riga riga (l.server.line_counter + 1))) [
          | inl this ↦ record {
            clean = tt;
            quiet = λ w m.
                let (none_here, o) = calm.quiet w m in
                (rw (this, h.flushed, none_here) refl, rw this at (rw e at o));
            tail = λ w done. absurd (cc);
            pending = λ w.
                rw (this, h.flushed, append-nil l.to_client)
                  (rw this at (rw e at (calm.pending w)));
            settled = λ w. rw e at (calm.settled w);
          }
          | inr line ↦ record {
            clean = tt;
            quiet = λ w m. let o = rw line at (rw e at (calm.quiet w m).1) in absurd (omega arith);
            tail = λ w done. absurd (cc);
            pending = λ w. elim (rw line at (rw e at (calm.pending w))) [
              | inl (none_here, o) ↦
                  inr (rw (line, h.flushed, none_here) (rw nil (omega arith)), omega arith)
              | inr (short, o) ↦ absurd (omega arith)
            ];
            settled = λ w. rw e at (calm.settled w);
          }
        ]

    other-Calm :
        (left rest : Bytes) (c : ℕ) (waiting : Bool) (l : Link)
        → (c == b'\n') ≡ false
        → l.to_server ≡ c ∷ rest
        → Inv riga dim all left l
        → Calm waiting l
        → Calm waiting (flush (record l { to_server = rest }) (behind_other c l.server))
    other-Calm left rest c waiting l other e h calm =
        let more = not_finished riga dim all left rest c l e h in
        let same : l.to_client ++ join l.server.sent ≡ l.to_client =
          rw h.flushed (append-nil l.to_client) in
        record {
          clean = All-append _ l.server.buff (c ∷ []) calm.clean (other, tt);
          quiet = λ w m. rw same (rw other at (rw e at (calm.quiet w m)));
          tail = λ w done. absurd (cc);
          pending = λ w. rw same (rw other at (rw e at (calm.pending w)));
          settled = λ w. rw other at (rw e at (calm.settled w));
        }

    pub serve_byte-Calm :
        (left : Bytes) (waiting : Bool) (l : Link)
        → Inv riga dim all left l
        → Calm waiting l
        → Keeps (Calm waiting) (serve_byte (cfg riga dim) l l.to_server)
    unfolding serve_byte
    serve_byte-Calm left waiting l h calm = go l.to_server refl
      where
        go : (b : Bytes) → l.to_server ≡ b → Keeps (Calm waiting) (serve_byte (cfg riga dim) l b)
        go [] e = tt
        go (c ∷ rest) e = elim (Bool-cases (c == b'\n')) [
          | inl newline ↦
              let c' : c ≡ b'\n' = ground arith in
              let e' = rw c' at e in
              rw (c', serve_newline riga dim all left rest l e' h)
                (newline-Calm left rest waiting l e' h calm)
          | inr other ↦
              rw (serve_other riga dim all left rest c l other e h)
                (other-Calm left rest c waiting l other e h calm)
        ]

    last-Calm :
        (left : Bytes) (waiting : Bool) (l : Link)
        → l.to_server ++ left ≡ []
        → l.finished ≡ false
        → Calm waiting l
        → Calm waiting (behind_last riga l)
    last-Calm left waiting l e more calm =
        let here : l.to_server ≡ [] = front_nil l.to_server left e in
        let sent =
          if not (is_riga riga (l.server.line_counter + 1)) then l.server.buff ∷ [] else [] in
        record {
          clean = calm.clean;
          quiet = λ w m. absurd (cc);
          tail = λ w done. rw (calm.quiet w more).0 (
              sent_clean (not (is_riga riga (l.server.line_counter + 1))) l.server.buff calm.clean);
          pending = λ w.
              let empty : l.server.buff ≡ [] = rw here at (calm.settled w) in
              let nothing : join sent ≡ [] =
                sent_nothing (not (is_riga riga (l.server.line_counter + 1))) l.server.buff empty in
              rw (nothing, append-nil l.to_client, here)
                (elim (rw here at (calm.pending w)) [
                  | inl (none_here, o) ↦ absurd (omega arith)
                  | inr (short, o) ↦ inr (short, refl)
                ]);
          settled = calm.settled;
        }

    pub serve_last-Calm :
        (left : Bytes) (waiting : Bool) (l : Link)
        → Inv riga dim all left l
        → Calm waiting l
        → Keeps (Calm waiting) (serve_last (cfg riga dim) l)
    serve_last-Calm left waiting l h calm = elim (serve_last_cases riga dim all left l h) [
      | inl closed ↦ rw closed tt
      | inr (e, more) ↦
          rw (serve_last_runs riga dim all left l e more h) (last-Calm left waiting l e more calm)
    ]
