-- ===== src/CountClient/Ends.antt =====
-- The loop of esercitazione7/client.c comes to an end: each number that it reads takes a byte of the input.
use lab_reti_di_calcolatori.Base.{
  ℕ, zero, suc, ◌+◌, ◌<◌, ◌≤◌, Bool, Option, some, List, [], ◌∷◌, ◌≡◌, refl, ap, arith, length,
  Bool-cases, Option-cases, inl, inr, some_inj, bind-eq-some,
}
use lab_reti_di_calcolatori.Base.Int.{ℤ}
use lab_reti_di_calcolatori.Base.CString.{Bytes, scan_word}
use lab_reti_di_calcolatori.Counting.{System}
use lab_reti_di_calcolatori.CountClient.{
  Scanf, Desk, running, put_back, scan_number, scan_string, is_procedure, ask_contafile,
  ask_contadir, choose, session, total, fits_int,
}

-- A number takes at least one byte of its word.
abbrev pub Consumes : Scanf → Type 0
Consumes scan = (word rest : Bytes) (z : ℤ) → scan word ≡ (some z, rest) → length rest < length word

total-put_back :
    (rest : Bytes) (words : List Bytes) → total (put_back rest words) ≡ length rest + total words
total-put_back [] words = omega arith
total-put_back (c ∷ rest) words = refl

scan_number_shrinks :
    (scan : Scanf) (words rest : List Bytes) (z : ℤ)
    → Consumes scan
    → scan_number scan words ≡ (some z, rest)
    → total rest < total words
unfolding scan_number
scan_number_shrinks scan [] rest z eats h = absurd (let e = ap (λ p. p.0) h in ground arith)
scan_number_shrinks scan (word ∷ words) rest z eats h =
    let number : (scan word).0 ≡ some z = ap (λ p. p.0) h in
    let behind : put_back (scan word).1 words ≡ rest = ap (λ p. p.1) h in
    omega (
      arith,
      eats word (scan word).1 z (ap (λ o. (o, (scan word).1)) number),
      total-put_back (scan word).1 words,
      ap total behind,
    )

scan_string_shrinks :
    (array : Option Bytes) (words : List Bytes) (p : Option Bytes × List Bytes)
    → scan_string array words ≡ some p
    → total p.1 ≤ total words
unfolding scan_string scan_word
scan_string_shrinks array [] p h = ground arith
scan_string_shrinks array (word ∷ words) p h = ground arith

module _ {File : Type 0} (open_file : ℕ → Bytes → Option Bytes) (sys : System File)
    (net : ℕ → List Bool) (scan_d scan_i : Scanf) (eats_d : Consumes scan_d)
    (eats_i : Consumes scan_i) where
  ask_contafile_shrinks :
      (words : List Bytes) (d : Desk) (p : List Bytes × Desk)
      → ask_contafile open_file sys net scan_d scan_i words d ≡ some p
      → total p.0 ≤ total words
  unfolding ask_contafile
  ask_contafile_shrinks words d p h = elim (Option-cases (scan_string d.contafile_word words)) [
    | inl bad ↦ ground arith
    | inr (read, scanned) ↦
        let shrinks = scan_string_shrinks d.contafile_word words read scanned in ground arith
  ]

  ask_contadir_shrinks :
      (words : List Bytes) (d : Desk) (p : List Bytes × Desk)
      → ask_contadir open_file sys net scan_d scan_i words d ≡ some p
      → total p.0 ≤ total words
  unfolding ask_contadir
  ask_contadir_shrinks words d p h = elim (Option-cases (scan_string d.filename words)) [
    | inl bad ↦ ground arith
    | inr (read, scanned) ↦
        let shrinks = scan_string_shrinks d.filename words read scanned in
        let rest = (scan_number scan_i read.1).1 in
        elim (Option-cases (scan_number scan_i read.1).0) [
          | inl bad ↦ ground arith
          | inr (dimfile, sized) ↦
              let eaten =
                scan_number_shrinks scan_i read.1 rest dimfile eats_i (ap (λ o. (o, rest)) sized) in
              ground arith
        ]
  ]

  choose_shrinks :
      (z : ℤ) (words : List Bytes) (d : Desk) (p : List Bytes × Desk)
      → choose open_file sys net scan_d scan_i z words d ≡ some p
      → total p.0 ≤ total words
  unfolding choose
  choose_shrinks z words d p h0 =
      let (y, int, h) = bind-eq-some (fits_int z) _ h0 in
      elim (Bool-cases (is_procedure 1 z)) [
        | inl one ↦ ask_contafile_shrinks words d p (rw one at h)
        | inr other ↦ elim (Bool-cases (is_procedure 2 z)) [
          | inl two ↦ ask_contadir_shrinks words d p (rw (other, two) at h)
          | inr neither ↦
              let e = rw (other, neither) at h in omega (arith, ap (λ q. total q.0) (some_inj e))
        ]
      ]

  -- The loop ends, in `exit` or at a word that is no number, or it meets undefined behaviour: it never reads more
  -- numbers than the input has bytes, and one more `scanf`. A number takes at least one byte of its word.
  pub session_ends :
      (words : List Bytes) (fuel : ℕ) (d : Desk)
      → total words < fuel
      → ¬ (session open_file sys net scan_d scan_i fuel words d ≡ running)
  unfolding session
  session_ends words zero d enough h = omega arith
  session_ends words (suc fuel) d enough h =
      let rest = (scan_number scan_d words).1 in
      elim (Option-cases (scan_number scan_d words).0) [
        | inl stops ↦ ground arith
        | inr (z, read) ↦
            let eaten = scan_number_shrinks scan_d words rest z eats_d (ap (λ o. (o, rest)) read) in
            elim (Option-cases (choose open_file sys net scan_d scan_i z rest d)) [
              | inl bad ↦ ground arith
              | inr (p, chosen) ↦
                  let shrinks = choose_shrinks z rest d p chosen in
                  let later = session_ends p.0 fuel p.1 (omega arith) in ground arith
            ]
      ]
