-- ===== src/Exchange/Paced.antt =====
-- A chunk that arrives whole, and what the client sends, while the two keep step.
use lab_reti_di_calcolatori.Base.{
  ℕ, ◌+◌, ◌≤◌, min, true, false, not, [], ◌==◌, ◌≡◌, refl, ap, arith, length, Bool-cases, inl, inr,
  drop, drop_all,
}
use lab_reti_di_calcolatori.Base.Int.{ℤ}
use lab_reti_di_calcolatori.Lines.{is_riga}
use lab_reti_di_calcolatori.Exchange.{Link, store_chunk, sent_to}
use lab_reti_di_calcolatori.Exchange.Invariant.{Keeps}
use lab_reti_di_calcolatori.Exchange.Owed.{newlines, owed-append}
use lab_reti_di_calcolatori.Exchange.Calm.{Calm, residual_newline}

module _ (riga : ℤ) where
  -- A chunk that is as long as what is on its way.
  pub store_chunk-Calm :
      (n : ℕ) (l : Link) → 256 ≤ n → Calm riga true l → Keeps (Calm riga false) (store_chunk n l)
  unfolding store_chunk
  store_chunk-Calm n l whole calm = elim (calm.pending refl) [
    | inl (none_here, o) ↦
        let zero_here : (min n (min 256 (length l.to_client)) == 0) ≡ true =
          let size = ap length none_here in ground arith in
        rw zero_here tt
    | inr (short, o) ↦
        let k = min n (min 256 (length l.to_client)) in
        let empty : drop k l.to_client ≡ [] = drop_all k l.to_client (omega arith) in
        elim (Bool-cases (k == 0)) [
          | inl none_here ↦ rw none_here tt
          | inr some_here ↦ rw some_here (record {
            clean = calm.clean;
            quiet = λ w m. (empty, o);
            tail = λ w done. rw empty tt;
            pending = λ w. absurd (cc);
            settled = λ w. absurd (cc);
          })
        ]
  ]

  pub newline_sent-Calm :
      (count : ℕ) (l : Link)
      → count ≡ l.server.line_counter + newlines l.to_server
      → l.finished ≡ false
      → Calm riga false l
      → Calm riga (not (is_riga riga (count + 1))) (sent_to l b'\n')
  newline_sent-Calm count l e more calm =
      let (none_here, o) = calm.quiet refl more in
      let more_owed =
        owed-append riga l.server.line_counter (count + 1) l.to_server b'\n' (omega arith) in
      elim (Bool-cases (is_riga riga (count + 1))) [
        | inl this ↦
            let same = rw this at more_owed in
            record {
              clean = calm.clean;
              quiet = λ w m. (none_here, omega arith);
              tail = λ w done. absurd (cc);
              pending = λ w. absurd (cc);
              settled = λ w. residual_newline l.server.buff l.to_server;
            }
        | inr line ↦
            let one = rw line at more_owed in
            record {
              clean = calm.clean;
              quiet = λ w m. absurd (cc);
              tail = λ w done. absurd (cc);
              pending = λ w. inl (none_here, omega arith);
              settled = λ w. residual_newline l.server.buff l.to_server;
            }
      ]

  pub other_sent-Calm :
      (c : ℕ) (l : Link)
      → (c == b'\n') ≡ false
      → l.finished ≡ false
      → Calm riga false l
      → Calm riga false (sent_to l c)
  other_sent-Calm c l other more calm =
      let (none_here, o) = calm.quiet refl more in
      let same = rw other at (owed-append riga l.server.line_counter _ l.to_server c refl) in
      record {
        clean = calm.clean;
        quiet = λ w m. (none_here, omega arith);
        tail = λ w done. absurd (cc);
        pending = λ w. absurd (cc);
        settled = λ w. absurd (cc);
      }
