-- ===== src/Exchange/Server.antt =====
-- The server's side: what every action keeps, whatever bytes are under way.
use lab_reti_di_calcolatori.Base.{
  ℕ, ◌+◌, true, false, not, [], ◌∷◌, ◌++◌, ◌==◌, if◌then◌else◌, ◌≡◌, refl, ap, arith, length-append,
  append-nil, Bool-cases, inl, inr, lt→ltb,
}
use lab_reti_di_calcolatori.Base.Int.{ℤ, pos, pos_part, ltb_ℤ}
use lab_reti_di_calcolatori.Base.CString.{Bytes}
use lab_reti_di_calcolatori.Lines.{Upload, is_riga}
use lab_reti_di_calcolatori.Lines.Text.{
  lines, prepend, Fits, prepend-extend, prepend_nil-lines, Fits-prepend,
}
use lab_reti_di_calcolatori.Lines.Transfer.{receive_newline, receive_other}
use lab_reti_di_calcolatori.Exchange.Invariant.{Keeps, cfg, Inv, not_finished, sent_line}
use lab_reti_di_calcolatori.Exchange.{moved, Link, flush, serve_byte}

-- The server's variables behind a newline.
abbrev pub behind_newline : ℤ → Upload → Upload
behind_newline riga u = record {
  i = pos (pos_part u.i + 1);
  tmp = b'\n';
  buff = [];
  line_counter = u.line_counter + 1;
  sent =
      if not (is_riga riga (u.line_counter + 1))
      then u.sent ++ (u.buff ++ b'\n' ∷ []) ∷ []
      else u.sent;
}

abbrev pub behind_other : ℕ → Upload → Upload
behind_other c u = record u { i = pos (pos_part u.i + 1); tmp = c; buff = u.buff ++ c ∷ [] }

module _ (riga : ℤ) (dim : ℕ) (all : Bytes) where
  pub serve_newline :
      (left rest : Bytes) (l : Link)
      → l.to_server ≡ b'\n' ∷ rest
      → Inv riga dim all left l
      → serve_byte (cfg riga dim) l (b'\n' ∷ rest)
        ≡ moved (flush (record l { to_server = rest }) (behind_newline riga l.server))
  unfolding serve_byte
  serve_newline left rest l e h =
      let small = h.small (not_finished riga dim all left rest b'\n' l e h) in
      let whole = rw e at h.whole in
      let fits = rw e at h.fits in
      let inside : ltb_ℤ l.server.i (pos dim) ≡ true =
        rw h.counted (lt→ltb (h.read + 0) (dim + 0) (omega arith)) in
      let step =
        receive_newline riga h.read l.server h.counted (omega (arith, h.dim_small))
          (omega (arith, h.dim_small))
          (omega (arith, fits.0, length-append l.server.buff (b'\n' ∷ []))) in
      rw (inside, step, ap pos_part h.counted) refl

  newline-Inv :
      (left rest : Bytes) (l : Link)
      → l.to_server ≡ b'\n' ∷ rest
      → Inv riga dim all left l
      → Inv riga dim all left (flush (record l { to_server = rest }) (behind_newline riga l.server))
  newline-Inv left rest l e h =
      let more = not_finished riga dim all left rest b'\n' l e h in
      let small = h.small more in
      let whole = rw e at h.whole in
      let fits = rw e at h.fits in
      let stream = rw (more, e) at h.stream in
      record {
        read = h.read + 1;
        counted = ap (λ (z : ℤ). pos (pos_part z + 1)) h.counted;
        whole = omega arith;
        small = λ _. omega arith;
        dim_small = h.dim_small;
        flushed = refl;
        fits = rw (prepend_nil-lines (rest ++ left)) fits.1;
        ended = λ done. cc;
        stream =
            rw (more, prepend_nil-lines (rest ++ left))
              (rw
                (sent_line riga (l.server.line_counter + 1) l.server.sent l.to_client
                  (lines (rest ++ left)) (l.server.buff ++ b'\n' ∷ []) h.flushed)
                stream);
      }

  other-Fits :
      (left rest : Bytes) (c : ℕ) (l : Link)
      → (c == b'\n') ≡ false
      → l.to_server ≡ c ∷ rest
      → Inv riga dim all left l
      → Fits (prepend (l.server.buff ++ c ∷ []) (lines (rest ++ left)))
  other-Fits left rest c l other e h =
      rw (prepend-extend l.server.buff c (lines (rest ++ left))) at (rw other at (rw e at h.fits))

  pub serve_other :
      (left rest : Bytes) (c : ℕ) (l : Link)
      → (c == b'\n') ≡ false
      → l.to_server ≡ c ∷ rest
      → Inv riga dim all left l
      → serve_byte (cfg riga dim) l (c ∷ rest)
        ≡ moved (flush (record l { to_server = rest }) (behind_other c l.server))
  unfolding serve_byte
  serve_other left rest c l other e h =
      let whole = rw e at h.whole in
      let longer = length-append l.server.buff (c ∷ []) in
      let room =
        Fits-prepend (l.server.buff ++ c ∷ []) (lines (rest ++ left))
          (other-Fits left rest c l other e h) in
      let inside : ltb_ℤ l.server.i (pos dim) ≡ true =
        rw h.counted (lt→ltb (h.read + 0) (dim + 0) (omega arith)) in
      let step =
        receive_other riga c h.read l.server other h.counted (omega (arith, h.dim_small))
          (omega arith) in
      rw (inside, step, ap pos_part h.counted) refl

  other-Inv :
      (left rest : Bytes) (c : ℕ) (l : Link)
      → (c == b'\n') ≡ false
      → l.to_server ≡ c ∷ rest
      → Inv riga dim all left l
      → Inv riga dim all left (flush (record l { to_server = rest }) (behind_other c l.server))
  other-Inv left rest c l other e h =
      let more = not_finished riga dim all left rest c l e h in
      let small = h.small more in
      let whole = rw e at h.whole in
      let shape = prepend-extend l.server.buff c (lines (rest ++ left)) in
      let stream = rw shape at (rw other at (rw (more, e) at h.stream)) in
      record {
        read = h.read + 1;
        counted = ap (λ (z : ℤ). pos (pos_part z + 1)) h.counted;
        whole = omega arith;
        small = λ _. omega arith;
        dim_small = h.dim_small;
        flushed = refl;
        fits = other-Fits left rest c l other e h;
        ended = λ done. cc;
        stream = rw (more, h.flushed, append-nil l.to_client) stream;
      }

  pub serve_byte-Inv :
      (left : Bytes) (l : Link)
      → Inv riga dim all left l
      → Keeps (Inv riga dim all left) (serve_byte (cfg riga dim) l l.to_server)
  unfolding serve_byte
  serve_byte-Inv left l h = go l.to_server refl
    where
      go :
          (b : Bytes)
          → l.to_server ≡ b
          → Keeps (Inv riga dim all left) (serve_byte (cfg riga dim) l b)
      go [] e = tt
      go (c ∷ rest) e = elim (Bool-cases (c == b'\n')) [
        | inl newline ↦
            let c' : c ≡ b'\n' = ground arith in
            let e' = rw c' at e in
            rw (c', serve_newline left rest l e' h) (newline-Inv left rest l e' h)
        | inr other ↦ rw (serve_other left rest c l other e h) (other-Inv left rest c l other e h)
      ]
