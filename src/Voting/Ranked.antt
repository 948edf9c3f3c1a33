-- ===== src/Voting/Ranked.antt =====
-- The loop over a registry whose judges are all introduced before any of them comes again.
use lab_reti_di_calcolatori.Base.{
  ℕ, suc, ◌+◌, ◌<◌, ◌≤◌, ◌^◌, ◌*◌, Bool, true, false, ◌||◌, some, List, [], ◌∷◌, ◌++◌, ◌≡◌, refl,
  sym, ◌∙◌, arith, length, get_elem?, get_elem?-append, All, append_assoc, length-append,
}
use lab_reti_di_calcolatori.Base.CString.{Bytes, str_eq, str_eq_iff}
use lab_reti_di_calcolatori.Voting.{Registro, Tally, mark_l, tally_row, collect}
use lab_reti_di_calcolatori.Voting.Standings.{Entry, known, add_vote, tallied, known-add_vote}
use lab_reti_di_calcolatori.Voting.Arrays.{Named, add_vote_new}
use lab_reti_di_calcolatori.Voting.Collect.{
  Holds, IsRow, max_voto, Bounded, Bounded-add_vote, Named-add_vote, tally_row_new, tally_row-known,
}

-- Some row of the list is judged by `g`.
abbrev pub judged : Bytes → List Registro → Bool
judged g [] = false
judged g (r ∷ rows) = str_eq g r.giudice || judged g rows

-- Every row has a judge of its own.
abbrev pub OwnJudges : List Registro → Type 0
OwnJudges [] = Unit
OwnJudges (r ∷ rows) = (judged r.giudice rows ≡ false) × OwnJudges rows

-- The list is empty or begins with an unused row.
abbrev pub IsUnused : List Registro → Type 0
IsUnused [] = Unit
IsUnused (r ∷ rows) = str_eq r.giudice mark_l ≡ true

-- What the loop knows of its arrays.
pub record Sound (t : Tally) (es : List Entry) (free bound : ℕ) : Type 0 where
  pub holds : Holds t es free
  pub names : Named es
  pub bounded : Bounded bound es

Sound-add_vote :
    (t : Tally) (r : Registro) (es : List Entry) (free b : ℕ)
    → IsRow r
    → Named es
    → Bounded b es
    → Holds t (add_vote r.giudice r.voto es) free
    → Sound t (add_vote r.giudice r.voto es) free (b + max_voto)
Sound-add_vote t r es free b ok n bd h = record {
  holds = h;
  names = Named-add_vote r.giudice r.voto es ok.named n;
  bounded = Bounded-add_vote r.giudice b r.voto es ok.small bd;
}

-- What the loop has made of a part of the rows, when `rest` is still to come.
pub record Passed (reg rows rest : List Registro) (t : Tally) (es : List Entry) (free b : ℕ)
    : Type 0 where
  pub after : Tally
  pub steps : collect reg (rows ++ rest) t ≡ collect reg rest after
  pub sound : Sound after (tallied rows es) free b

Passed-cons :
    (reg rows rest : List Registro) (r : Registro) (t u : Tally) (es : List Entry) (free b : ℕ)
    → IsRow r
    → tally_row reg r t ≡ some u
    → Passed reg rows rest u (add_vote r.giudice r.voto es) free b
    → Passed reg (r ∷ rows) rest t es free b
unfolding collect
Passed-cons reg rows rest r t u es free b ok step p = record {
  after = p.after;
  steps = rw (ok.in_use, step) p.steps;
  sound = rw ok.in_use p.sound;
}

pub known_still :
    (r : Registro) (es : List Entry) (rows : List Registro)
    → All (λ q. known q.giudice es ≡ true) rows
    → All (λ q. known q.giudice (add_vote r.giudice r.voto es) ≡ true) rows
known_still r es [] k = tt
known_still r es (q ∷ rows) k =
    (ground (arith, known-add_vote q.giudice r.giudice r.voto es), known_still r es rows k.1)

pub pass_repeats :
    (reg rows rest : List Registro) (t : Tally) (es : List Entry) (free b c : ℕ)
    → Sound t es free b
    → All IsRow rows
    → All (λ r. known r.giudice es ≡ true) rows
    → c ≡ b + length rows * max_voto
    → c < 2 ^ 31
    → Passed reg rows rest t es free c
pass_repeats reg [] rest t es free b c s ok k e lt = record {
  after = t;
  steps = refl;
  sound = let e' : c ≡ b = omega arith in rw e' s;
}
pass_repeats reg (r ∷ rows) rest t es free b c s ok k e lt =
    let (u, step, h) =
      tally_row-known reg r t es free b s.holds s.names ok.0 s.bounded (omega arith) k.0 in
    Passed-cons reg rows rest r t u es free c ok.0 step (
      pass_repeats reg rows rest u _ free (b + max_voto) c
        (Sound-add_vote u r es free b ok.0 s.names s.bounded h) ok.1 (known_still r es rows k.1)
        (omega arith) lt)

pub judged_not_known :
    (r : Registro) (es : List Entry) (rows : List Registro)
    → judged r.giudice rows ≡ false
    → All (λ q. known q.giudice es ≡ false) rows
    → All (λ q. known q.giudice (add_vote r.giudice r.voto es) ≡ false) rows
judged_not_known r es [] j k = tt
judged_not_known r es (q ∷ rows) j k = (
  ground (
    arith,
    known-add_vote q.giudice r.giudice r.voto es,
    str_eq_iff q.giudice r.giudice,
    str_eq_iff r.giudice q.giudice,
  ),
  judged_not_known r es rows (ground arith) k.1,
)

pub pass_firsts :
    (reg done rows rest : List Registro) (t : Tally) (es : List Entry) (free free' b c : ℕ)
    → reg ≡ done ++ (rows ++ rest)
    → length done ≡ length es
    → Sound t es free b
    → All IsRow rows
    → OwnJudges rows
    → All (λ r. known r.giudice es ≡ false) rows
    → free ≡ length rows + free'
    → c ≡ b + length rows * max_voto
    → Passed reg rows rest t es free' c
pass_firsts reg done [] rest t es free free' b c split len s ok own k f e = record {
  after = t;
  steps = refl;
  sound = let (p, q) : (c ≡ b) × (free' ≡ free) = omega arith in rw (p, q) s;
}
pass_firsts reg done (r ∷ rows) rest t es free free' b c split len s ok own k f e =
    let at : get_elem? reg (length es) ≡ some r =
      rw split (get_elem?-append done (rows ++ rest) r (length es) (sym len)) in
    let (u, step, h) =
      tally_row_new reg r r t es (length rows + free')
        (let e' : suc (length rows + free') ≡ free = omega arith in rw e' s.holds) s.names ok.0 k.0
        at in
    Passed-cons reg rows rest r t u es free' c ok.0 step (
      pass_firsts reg (done ++ r ∷ []) rows rest u _ (length rows + free') free' (b + max_voto) c
        (split ∙ sym (append_assoc done (r ∷ []) (rows ++ rest)))
        (rw (add_vote_new r.giudice r.voto es k.0) (omega (arith, length-append {0}, len)))
        (Sound-add_vote u r es (length rows + free') b ok.0 s.names s.bounded h) ok.1 own.1
        (judged_not_known r es rows own.0 k.1) refl (omega arith))

-- A registry with a row for each judge first, then more rows of these judges, then unused rows.
pub record IsRanked (reg firsts repeats unused : List Registro) : Type 0 where
  pub parts : reg ≡ firsts ++ (repeats ++ unused)
  pub rows_ok : All IsRow firsts × All IsRow repeats
  pub own : OwnJudges firsts
  pub again : All (λ r. judged r.giudice firsts ≡ true) repeats
  pub rest_unused : IsUnused unused
  pub in_size : length firsts + length repeats ≤ 256

pub known-tallied :
    (h : Bytes) (rows : List Registro) (es : List Entry)
    → All IsRow rows
    → known h (tallied rows es) ≡ (known h es || judged h rows)
known-tallied h [] es ok = ground arith
known-tallied h (r ∷ rows) es ok = rw ok.0.in_use (
    ground (
      arith,
      known-tallied h rows (add_vote r.giudice r.voto es) ok.1,
      known-add_vote h r.giudice r.voto es,
    ))

pub tallied-append :
    (xs ys : List Registro) (es : List Entry)
    → All IsRow xs
    → tallied (xs ++ ys) es ≡ tallied ys (tallied xs es)
tallied-append [] ys es ok = refl
tallied-append (r ∷ xs) ys es ok =
    rw ok.0.in_use (tallied-append xs ys (add_vote r.giudice r.voto es) ok.1)

pub collect_unused :
    (reg rows : List Registro) (t : Tally) → IsUnused rows → collect reg rows t ≡ some t
unfolding collect
collect_unused reg [] t h = refl
collect_unused reg (r ∷ rows) t h = rw h

pub tallied_unused : (rows : List Registro) (es : List Entry) → IsUnused rows → tallied rows es ≡ es
tallied_unused [] es h = refl
tallied_unused (r ∷ rows) es h = rw h
