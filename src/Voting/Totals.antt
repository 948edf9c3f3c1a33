-- ===== src/Voting/Totals.antt =====
-- The arrays of a ranked registry hold its standings: each judge with the sum of its votes.
use lab_reti_di_calcolatori.Base.{
  ◌-◌, true, false, some, List, [], ◌∷◌, ◌++◌, map, ◌≡◌, refl, sym, ap, ◌∙◌, arith, length, All,
  append_assoc, append-nil,
}
use mathlib.Core.List.{map-append}
use mathlib.Core.Path.{fun_ext}
use lab_reti_di_calcolatori.Base.Int.{ℤ, zero-+ℤ}
use lab_reti_di_calcolatori.Base.CString.{Bytes, str_eq_iff, str_eq_refl}
use lab_reti_di_calcolatori.Voting.{Registro, Tally, collect}
use lab_reti_di_calcolatori.Voting.Standings.{
  Entry, name, known, value, total, Distinct, add_vote, tallied, value-tallied, Distinct-tallied,
}
use lab_reti_di_calcolatori.Voting.Arrays.{add_vote_new}
use lab_reti_di_calcolatori.Voting.Collect.{Holds, IsRow}
use lab_reti_di_calcolatori.Voting.Ranked.{
  judged, OwnJudges, IsRanked, pass_firsts, pass_repeats, judged_not_known, known_still,
  known-tallied, tallied-append, collect_unused, tallied_unused,
}

abbrev pub judge : Registro → Bytes
judge r = r.giudice

-- The judges of the rows, each with its total over the registry.
abbrev pub standings : List Registro → List Registro → List Entry
standings firsts reg = map (λ g. (g, total g reg)) (map judge firsts)

names_known :
    (g : Bytes) (v : ℤ) (es : List Entry)
    → known g es ≡ true
    → map name (add_vote g v es) ≡ map name es
names_known g v [] k = cc
names_known g v ((h, w) ∷ es) k = ground (arith, names_known g v es)

names_repeats :
    (rows : List Registro) (es : List Entry)
    → All IsRow rows
    → All (λ r. known r.giudice es ≡ true) rows
    → map name (tallied rows es) ≡ map name es
names_repeats [] es ok k = refl
names_repeats (r ∷ rows) es ok k = rw ok.0.in_use (
    names_repeats rows (add_vote r.giudice r.voto es) ok.1 (known_still r es rows k.1)
    ∙ names_known r.giudice r.voto es k.0)

names_firsts :
    (rows : List Registro) (es : List Entry)
    → All IsRow rows
    → OwnJudges rows
    → All (λ r. known r.giudice es ≡ false) rows
    → map name (tallied rows es) ≡ map name es ++ map judge rows
names_firsts [] es ok own k = sym (append-nil (map name es))
names_firsts (r ∷ rows) es ok own k = rw ok.0.in_use (
    names_firsts rows (add_vote r.giudice r.voto es) ok.1 own.1
      (judged_not_known r es rows own.0 k.1)
    ∙ rw (add_vote_new r.giudice r.voto es k.0) (rw map-append (append_assoc (map name es) _ _)))

-- A list of entries is read off its names.
abbrev read_off : List Entry → List Bytes → List Entry
read_off es = map (λ g. (g, value g es))

value_tail :
    (h : Bytes) (v : ℤ) (es fs : List Entry)
    → known h fs ≡ false
    → read_off ((h, v) ∷ es) (map name fs) ≡ read_off es (map name fs)
value_tail h v es [] k = refl
value_tail h v es ((g, w) ∷ fs) k =
    ground (arith, value_tail h v es fs, str_eq_iff g h, str_eq_iff h g)

value_names : (es : List Entry) → Distinct es → es ≡ read_off es (map name es)
value_names [] d = refl
value_names ((h, v) ∷ es) d =
    rw (str_eq_refl h, value_tail h v es es d.0) (ap (◌∷◌ (h, v)) (value_names es d.1))

module _ {reg firsts repeats unused : List Registro}
    (ranked : IsRanked reg firsts repeats unused) where
  tallied_parts : tallied reg [] ≡ tallied repeats (tallied firsts [])
  tallied_parts = rw ranked.parts (
      tallied-append firsts (repeats ++ unused) [] ranked.rows_ok.0
      ∙ tallied-append repeats unused (tallied firsts []) ranked.rows_ok.1
      ∙ tallied_unused unused _ ranked.rest_unused)

  none_known : (rows : List Registro) → All (λ r. known r.giudice [] ≡ false) rows
  none_known [] = tt
  none_known (r ∷ rows) = (refl, none_known rows)

  repeats_known :
      (rows : List Registro)
      → All (λ r. judged r.giudice firsts ≡ true) rows
      → All (λ r. known r.giudice (tallied firsts []) ≡ true) rows
  repeats_known [] h = tt
  repeats_known (r ∷ rows) h =
      (known-tallied r.giudice firsts [] ranked.rows_ok.0 ∙ h.0, repeats_known rows h.1)

  tallied-standings : tallied reg [] ≡ standings firsts reg
  tallied-standings =
      value_names (tallied reg []) (Distinct-tallied reg [] tt)
      ∙ ap (λ (f : Bytes → ℤ). map (λ g. (g, f g)) (map name (tallied reg [])))
          (fun_ext (λ g. value-tallied g reg [] ∙ zero-+ℤ (total g reg)))
      ∙ ap (map (λ g. (g, total g reg))) (
          ap (map name) tallied_parts
          ∙ names_repeats repeats (tallied firsts []) ranked.rows_ok.1
              (repeats_known repeats ranked.again)
          ∙ names_firsts firsts [] ranked.rows_ok.0 ranked.own (none_known firsts))

  -- The loop of the ranking ends with the standings in its arrays.
  pub collect-standings :
      (t : Tally)
      → Holds t [] 256
      → (u : Tally) × (collect reg reg t ≡ some u)
        × Holds u (standings firsts reg) (256 - length firsts)
  collect-standings t h =
      let first =
        pass_firsts reg [] firsts (repeats ++ unused) t [] 256 (256 - length firsts) 0 _
          ranked.parts refl (record { holds = h; names = tt; bounded = tt }) ranked.rows_ok.0
          ranked.own (none_known firsts) (omega (arith, ranked.in_size)) refl in
      let second =
        pass_repeats reg repeats unused first.after _ _ _ _ first.sound ranked.rows_ok.1
          (repeats_known repeats ranked.again) refl (omega (arith, ranked.in_size)) in
      (
        second.after,
        ap (λ rows. collect reg rows t) ranked.parts
            ∙ first.steps
            ∙ second.steps
            ∙ collect_unused reg unused second.after ranked.rest_unused,
        rw (← tallied-standings, tallied_parts) second.sound.holds,
      )
