-- ===== src/Voting/Standings.antt =====
-- What the ranking stands for: the votes of each judge, as an association list and as a sum over
-- the rows of the registry that are in use.
use lab_reti_di_calcolatori.Base.{
  Bool, false, ◌||◌, List, [], ◌∷◌, ◌≡◌, refl, sym, arith, if◌then◌else◌,
}
use lab_reti_di_calcolatori.Base.Int.{ℤ, pos, ◌+ℤ◌, zero-+ℤ, +ℤ-zero, +ℤ_assoc}
use lab_reti_di_calcolatori.Base.CString.{Bytes, str_eq, str_eq_iff}
use lab_reti_di_calcolatori.Voting.{Registro, mark_l}

-- A judge with a total of votes.
abbrev pub Entry : Type 0
Entry = Bytes × ℤ

abbrev pub name : Entry → Bytes
name e = e.0

abbrev pub points : Entry → ℤ
points e = e.1

abbrev pub known : Bytes → List Entry → Bool
known g [] = false
known g ((h, v) ∷ es) = str_eq g h || known g es

-- The votes of a judge over the rows before the first unused one.
abbrev pub total : Bytes → List Registro → ℤ
total g [] = pos 0
total g (r ∷ rows) =
    if str_eq r.giudice mark_l
    then pos 0
    else if str_eq g r.giudice
    then r.voto +ℤ total g rows
    else total g rows

abbrev pub value : Bytes → List Entry → ℤ
value g [] = pos 0
value g ((h, v) ∷ es) = if str_eq g h then v else value g es

abbrev pub add_vote : Bytes → ℤ → List Entry → List Entry
add_vote g v [] = (g, v) ∷ []
add_vote g v ((h, w) ∷ es) = if str_eq g h then (h, w +ℤ v) ∷ es else (h, w) ∷ add_vote g v es

abbrev pub tallied : List Registro → List Entry → List Entry
tallied [] es = es
tallied (r ∷ rows) es =
    if str_eq r.giudice mark_l then es else tallied rows (add_vote r.giudice r.voto es)

-- No judge is listed twice.
abbrev pub Distinct : List Entry → Type 0
Distinct [] = Unit
Distinct ((h, v) ∷ es) = (known h es ≡ false) × Distinct es

pub known-add_vote :
    (h g : Bytes) (v : ℤ) (es : List Entry) → known h (add_vote g v es) ≡ (str_eq h g || known h es)
known-add_vote h g v [] = refl
known-add_vote h g v ((k, w) ∷ es) =
    ground (arith, known-add_vote h g v es, str_eq_iff g k, str_eq_iff h g, str_eq_iff h k)

pub value-add_vote :
    (h g : Bytes) (v : ℤ) (es : List Entry)
    → value h (add_vote g v es) ≡ (if str_eq h g then value h es +ℤ v else value h es)
value-add_vote h g v [] = ground (arith, zero-+ℤ v)
value-add_vote h g v ((k, w) ∷ es) =
    ground (arith, value-add_vote h g v es, str_eq_iff g k, str_eq_iff h g, str_eq_iff h k)

pub Distinct-add_vote :
    (g : Bytes) (v : ℤ) (es : List Entry) → Distinct es → Distinct (add_vote g v es)
Distinct-add_vote g v [] d = (refl, tt)
Distinct-add_vote g v ((h, w) ∷ es) d =
    ground
      (arith, Distinct-add_vote g v es d.1, known-add_vote h g v es, str_eq_iff h g, str_eq_iff g h)

pub value-tallied :
    (h : Bytes) (rows : List Registro) (es : List Entry)
    → value h (tallied rows es) ≡ value h es +ℤ total h rows
value-tallied h [] es = sym (+ℤ-zero (value h es))
value-tallied h (r ∷ rows) es = ground (
  arith,
  value-tallied h rows (add_vote r.giudice r.voto es),
  value-add_vote h r.giudice r.voto es,
  +ℤ_assoc (value h es) r.voto (total h rows),
  +ℤ-zero (value h es),
)

pub Distinct-tallied :
    (rows : List Registro) (es : List Entry) → Distinct es → Distinct (tallied rows es)
Distinct-tallied [] es d = d
Distinct-tallied (r ∷ rows) es d = ground (
  arith,
  Distinct-tallied rows (add_vote r.giudice r.voto es) (Distinct-add_vote r.giudice r.voto es d),
)
