-- ===== src/Exchange/Last.antt =====
-- The last line that the server sends, and what the client takes from the stream.
use lab_reti_di_calcolatori.Base.{
  ℕ, ◌+◌, true, false, not, [], ◌∷◌, ◌++◌, ◌==◌, if◌then◌else◌, ◌≡◌, refl, sym, ap, ◌∙◌, arith,
  length, min, take, drop, take-drop, nil_of_length, append_assoc, append-nil, Bool-cases, inl, inr,
  ◌⊎◌, le→ltb,
}
use lab_reti_di_calcolatori.Base.Int.{ℤ, pos, ltb_ℤ, count_up_lem}
use lab_reti_di_calcolatori.Base.CString.{Bytes}
use lab_reti_di_calcolatori.Lines.{is_riga}
use lab_reti_di_calcolatori.Lines.Text.{join, kept}
use lab_reti_di_calcolatori.Exchange.Invariant.{Keeps, cfg, future, Inv}
use lab_reti_di_calcolatori.Exchange.{disabled, moved, Link, flush, serve_last, store_chunk}

-- The connection when the server has sent the last line.
abbrev pub behind_last : ℤ → Link → Link
behind_last riga l =
    let n = l.server.line_counter + 1 in
    flush (record l { finished = true })
      (record l.server {
        line_counter = n;
        sent = if not (is_riga riga n) then l.server.buff ∷ [] else [];
      })

module _ (riga : ℤ) (dim : ℕ) (all : Bytes) where
  pub serve_last_runs :
      (left : Bytes) (l : Link)
      → l.to_server ++ left ≡ []
      → l.finished ≡ false
      → Inv riga dim all left l
      → serve_last (cfg riga dim) l ≡ moved (behind_last riga l)
  unfolding serve_last
  serve_last_runs left l e more h =
      let whole = rw e at h.whole in
      let small = h.small more in
      let outside : ltb_ℤ l.server.i (pos dim) ≡ false =
        rw h.counted (le→ltb (h.read + 0) (dim + 0) (omega arith)) in
      rw (outside, more) (rw (count_up_lem l.server.line_counter (omega (arith, h.dim_small))) refl)

  pub serve_last_cases :
      (left : Bytes) (l : Link)
      → Inv riga dim all left l
      → (serve_last (cfg riga dim) l ≡ disabled)
        ⊎ ((l.to_server ++ left ≡ []) × (l.finished ≡ false))
  unfolding serve_last
  serve_last_cases left l h = elim (Bool-cases (ltb_ℤ l.server.i (pos dim))) [
    | inl inside ↦ inl (rw inside refl)
    | inr outside ↦ elim (Bool-cases l.finished) [
      | inl done ↦ inl (rw (outside, done) refl)
      | inr more ↦
          let out = rw h.counted at outside in inr (nil_of_length _ (ground (arith, h.whole)), more)
    ]
  ]

  behind_last-Inv :
      (left : Bytes) (l : Link)
      → l.to_server ++ left ≡ []
      → l.finished ≡ false
      → Inv riga dim all left l
      → Inv riga dim all left (behind_last riga l)
  behind_last-Inv left l e more h =
      let n = l.server.line_counter + 1 in
      let stream = rw (append-nil l.server.buff) at (rw (more, e) at h.stream) in
      let sent = if not (is_riga riga n) then l.server.buff ∷ [] else [] in
      let same : join sent ≡ join (kept riga n (l.server.buff ∷ [])) =
        elim (Bool-cases (is_riga riga n)) [ inl this ↦ rw this refl | inr line ↦ rw line refl ] in
      record {
        read = h.read;
        counted = h.counted;
        whole = h.whole;
        small = λ more'. cc;
        dim_small = h.dim_small;
        flushed = refl;
        fits = h.fits;
        ended = λ done. ap length e;
        stream =
            rw (same, append-nil (l.to_client ++ join (kept riga n (l.server.buff ∷ [])))) stream;
      }

  pub serve_last-Inv :
      (left : Bytes) (l : Link)
      → Inv riga dim all left l
      → Keeps (Inv riga dim all left) (serve_last (cfg riga dim) l)
  serve_last-Inv left l h = elim (serve_last_cases left l h) [
    | inl closed ↦ rw closed tt
    | inr (e, more) ↦ rw (serve_last_runs left l e more h) (behind_last-Inv left l e more h)
  ]

  pub store_chunk-Inv :
      (left : Bytes) (n : ℕ) (l : Link)
      → Inv riga dim all left l
      → Keeps (Inv riga dim all left) (store_chunk n l)
  unfolding store_chunk
  store_chunk-Inv left n l h =
      let k = min n (min 256 (length l.to_client)) in
      elim (Bool-cases (k == 0)) [
        | inl none_here ↦ rw none_here tt
        | inr some_here ↦ rw some_here (record {
          read = h.read;
          counted = h.counted;
          whole = h.whole;
          small = h.small;
          dim_small = h.dim_small;
          flushed = h.flushed;
          fits = h.fits;
          ended = h.ended;
          stream =
              let f = future riga l (l.to_server ++ left) in
              append_assoc l.written (take k l.to_client) (drop k l.to_client ++ f)
              ∙ (ap (λ (b : Bytes). l.written ++ b)
                    (sym (append_assoc (take k l.to_client) (drop k l.to_client) f)
                      ∙ ap (λ (b : Bytes). b ++ f) (take-drop k l.to_client))
                  ∙ h.stream);
        })
      ]
