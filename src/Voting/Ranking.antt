-- ===== src/Voting/Ranking.antt =====
-- `classifica_giudici_1_svc` as a whole: from the registry to the names that the client is sent.
use mathlib.Core.List.{Perm}
use mathlib.Core.List.Perm
use lab_reti_di_calcolatori.Base.{
  ℕ, zero, suc, ◌+◌, ◌-◌, true, false, some, List, [], ◌∷◌, map, ◌≡◌, refl, ap, ◌∙◌, arith, length,
  length-map, All, replicate,
}
use lab_reti_di_calcolatori.Base.Int.{ℤ}
use lab_reti_di_calcolatori.Base.CString.{Bytes, codes, str_eq, str_eq_refl}
use lab_reti_di_calcolatori.Voting.{
  Server, Tally, Registro, mark_null, inizializza, sort_outer, fill_null, fill_giudici,
  classifica_giudici,
}
use lab_reti_di_calcolatori.Voting.Standings.{Entry, name}
use lab_reti_di_calcolatori.Voting.Arrays.{places, Named}
use lab_reti_di_calcolatori.Voting.Collect.{Holds, IsRow}
use lab_reti_di_calcolatori.Voting.Ranked.{IsRanked}
use lab_reti_di_calcolatori.Voting.Totals.{standings, collect-standings}
use lab_reti_di_calcolatori.Voting.Sorting.{arrays, sorted, Descending, sort_outer-sorted}
use lab_reti_di_calcolatori.Voting.Order.{sorted-perm, sorted-All, sorted-Descending, length-sorted}

fill_null_free :
    (m : ℕ) (xs : List Bytes)
    → length xs ≡ m
    → fill_null (replicate m mark_null) xs ≡ replicate m mark_null
unfolding fill_null
fill_null_free zero [] h = refl
fill_null_free zero (x ∷ xs) h = absurd (omega arith)
fill_null_free (suc m) [] h = absurd (omega arith)
fill_null_free (suc m) (x ∷ xs) h = rw (str_eq_refl mark_null, fill_null_free m xs (omega arith))

fill_giudici_free : (m : ℕ) (xs : List Bytes) → fill_giudici (replicate m mark_null) xs ≡ xs
unfolding fill_giudici
fill_giudici_free zero xs = refl
fill_giudici_free (suc m) [] = refl
fill_giudici_free (suc m) (x ∷ xs) = rw (str_eq_refl mark_null)

fill_places :
    (es : List Entry) (m : ℕ) (xs : List Bytes)
    → Named es
    → length xs ≡ length es + m
    → fill_giudici (places es m) (fill_null (places es m) xs) ≡ places es m
unfolding fill_null fill_giudici
fill_places [] m xs n h =
    ap (fill_giudici (replicate m mark_null)) (fill_null_free m xs (omega arith))
    ∙ fill_giudici_free m (replicate m mark_null)
fill_places (e ∷ es) m [] n h = absurd (omega arith)
fill_places (e ∷ es) m (x ∷ xs) n h =
    rw n.0 (ap (◌∷◌ (name e)) (fill_places es m xs n.1 (omega arith)))

-- The entries in the order of the two loops of the sort.
abbrev pub sort_entries : List Entry → List Entry
sort_entries [] = []
sort_entries (e ∷ es) = sorted (length es) (e ∷ es)

sort_entries-perm : (es : List Entry) → Perm es (sort_entries es)
sort_entries-perm [] = Perm.refl []
sort_entries-perm (e ∷ es) = sorted-perm (length es) (e ∷ es) refl

sort_entries-Descending : (es : List Entry) → Descending (sort_entries es)
sort_entries-Descending [] = tt
sort_entries-Descending (e ∷ es) = sorted-Descending (length es) (e ∷ es) refl

pub sort_entries-Named : (es : List Entry) → Named es → Named (sort_entries es)
sort_entries-Named [] n = tt
sort_entries-Named (e ∷ es) n =
    sorted-All (λ f. str_eq f.0 mark_null ≡ false) (length es) (e ∷ es) refl n

pub length-sort_entries : (es : List Entry) → length (sort_entries es) ≡ length es
length-sort_entries [] = refl
length-sort_entries (e ∷ es) = length-sorted (length es) (e ∷ es) refl

-- What the two loops of the sort leave.
record Ordered (t : Tally) (es : List Entry) (free : ℕ) : Type 0 where
  after : Tally
  steps : sort_outer (t.n_giudici - 1) 0 t ≡ some after
  giudici_eq : after.giudici ≡ places (sort_entries es) free

Tally-arrays :
    (t : Tally) (es : List Entry) (free : ℕ) (h : Holds t es free)
    → t ≡ arrays es (replicate free mark_null) h.unused (length es)
Tally-arrays t es free h =
    λ i. record { giudici = h.giudici_eq i; voti = h.voti_eq i; n_giudici = h.counted i }

sort_tally : (t : Tally) (es : List Entry) (free : ℕ) → Holds t es free → Ordered t es free
sort_tally t [] free h = record {
  after = t;
  steps =
      let e : t.n_giudici - 1 ≡ 0 = omega (arith, h.counted) in rw e (unfold sort_outer in refl);
  giudici_eq = h.giudici_eq;
}
sort_tally t (e ∷ es) free h = record {
  after =
      arrays (sorted (length es) (e ∷ es)) (replicate free mark_null) h.unused (length (e ∷ es));
  steps =
      let rounds : t.n_giudici - 1 ≡ length es = omega (arith, h.counted) in
      rw (rounds, Tally-arrays t (e ∷ es) free h)
        (sort_outer-sorted (replicate free mark_null) h.unused (length (e ∷ es)) (length es)
          (e ∷ es) [] refl (omega arith));
  giudici_eq = refl;
}

pub standings-Named : (rows reg : List Registro) → All IsRow rows → Named (standings rows reg)
standings-Named [] reg ok = tt
standings-Named (r ∷ rows) reg ok = (ok.0.named, standings-Named rows reg ok.1)

length-standings : (rows reg : List Registro) → length (standings rows reg) ≡ length rows
length-standings [] reg = refl
length-standings (r ∷ rows) reg = ap suc (length-standings rows reg)

-- An initialised server whose registry is ranked, when the output has its 256 names.
pub record IsReady (s : Server) (firsts repeats unused : List Registro) : Type 0 where
  pub done : s.done ≡ true
  pub ranked : IsRanked s.reg firsts repeats unused
  pub names : length s.res ≡ 256

-- The ranking of these totals, in descending order, is what the procedure returns and keeps in its
-- static output, with free places behind it; nothing else changes.
abbrev pub Ranks : List ℤ → Server → List Entry → ℕ → Type 0
Ranks stack s totals free =
    (order : List Entry) × (classifica_giudici stack s
      ≡ some (places order free, record s { res = places order free }))
    × Perm totals order
    × Descending order

-- On an initialised server whose registry is ranked the procedure returns the sorted standings.
pub classifica_giudici-sort_entries :
    (stack : List ℤ) (s : Server) (firsts repeats unused : List Registro)
    → length stack ≡ 256
    → IsReady s firsts repeats unused
    → let nomi = places (sort_entries (standings firsts s.reg)) (256 - length firsts) in
      classifica_giudici stack s ≡ some (nomi, record s { res = nomi })
unfolding classifica_giudici inizializza
classifica_giudici-sort_entries stack s firsts repeats unused len ready =
    let es = standings firsts s.reg in
    let start : Tally = record { giudici = replicate 256 mark_null; voti = stack; n_giudici = 0 } in
    let (u, collected, held) = collect-standings ready.ranked start (record {
      unused = stack;
      giudici_eq = refl;
      voti_eq = refl;
      unused_length = len;
      counted = refl;
    }) in
    let o = sort_tally u _ _ held in
    let filled =
      fill_places (sort_entries es) (256 - length firsts) (map (λ (_ : Bytes). codes "") s.res)
        (sort_entries-Named es (standings-Named firsts s.reg ready.ranked.rows_ok.0))
        (omega (
          arith,
          length-map {B = Bytes} (λ (_ : Bytes). codes "") s.res,
          ready.names,
          length-sort_entries es,
          length-standings firsts s.reg,
          ready.ranked.in_size,
        )) in
    rw ready.done (rw collected (rw o.steps (rw o.giudici_eq (rw filled))))

-- On an initialised server whose registry is ranked, whatever the stack held before, the ranking
-- returns the judges in descending order of their totals, each judge of the registry once, with
-- free places behind them up to 256 names; the registry does not change.
pub classifica_giudici-Ranks :
    (stack : List ℤ) (s : Server) (firsts repeats unused : List Registro)
    → length stack ≡ 256
    → IsReady s firsts repeats unused
    → Ranks stack s (standings firsts s.reg) (256 - length firsts)
classifica_giudici-Ranks stack s firsts repeats unused len ready =
    let es = standings firsts s.reg in
    (
      sort_entries es,
      classifica_giudici-sort_entries stack s firsts repeats unused len ready,
      sort_entries-perm es,
      sort_entries-Descending es,
    )
