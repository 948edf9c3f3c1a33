-- ===== src/Voting/Arrays.antt =====
-- The two searches of the array of judges, where it holds the judges of an association list and
-- free places behind them.
use lab_reti_di_calcolatori.Base.{
  ℕ, zero, suc, ◌+◌, ◌<◌, true, false, none, some, List, [], ◌∷◌, ◌++◌, map, ◌≡◌, refl, ap, arith,
  Bool-cases, inl, inr, length, replicate, All, lt→ltb,
}
use lab_reti_di_calcolatori.Base.Int.{ℤ, ◌+ℤ◌}
use lab_reti_di_calcolatori.Base.CString.{Bytes, str_eq, str_eq_iff, str_eq_refl}
use lab_reti_di_calcolatori.Voting.{mark_null, nome_size, index_of_giudice, aggiungi_giudice}
use lab_reti_di_calcolatori.Voting.Standings.{Entry, name, known, add_vote}

abbrev pub places : List Entry → ℕ → List Bytes
places es m = map name es ++ replicate m mark_null

-- No judge has the name that marks a free place.
abbrev pub Named : List Entry → Type 0
Named = All (λ e. str_eq e.0 mark_null ≡ false)

pub index_of_giudice_new :
    (g : Bytes) (i m : ℕ) (es : List Entry)
    → Named es
    → known g es ≡ false
    → index_of_giudice g i (places es m) ≡ none
unfolding index_of_giudice
index_of_giudice_new g i zero [] h k = refl
index_of_giudice_new g i (suc m) [] h k = rw (str_eq_refl mark_null)
index_of_giudice_new g i m ((x, v) ∷ es) h k =
    ground (arith, index_of_giudice_new g (i + 1) m es h.1)

pub aggiungi_giudice_new :
    (g : Bytes) (i m : ℕ) (es : List Entry)
    → Named es
    → length g < nome_size
    → aggiungi_giudice g i (places es (suc m))
      ≡ some (some (i + length es), map name es ++ g ∷ replicate m mark_null)
unfolding aggiungi_giudice
aggiungi_giudice_new g i m [] h l = rw (str_eq_refl mark_null, lt→ltb _ _ l) (ground arith)
aggiungi_giudice_new g i m ((x, v) ∷ es) h l =
    ground (arith, aggiungi_giudice_new g (i + 1) m es h.1 l)

pub add_vote_new :
    (g : Bytes) (v : ℤ) (es : List Entry) → known g es ≡ false → add_vote g v es ≡ es ++ (g, v) ∷ []
add_vote_new g v [] k = refl
add_vote_new g v ((x, w) ∷ es) k = ground (arith, add_vote_new g v es)

-- Where a known judge stands.
pub record Split (g : Bytes) (es : List Entry) : Type 0 where
  pub before : List Entry
  pub points_of : ℤ
  pub behind : List Entry
  pub splits : es ≡ before ++ (g, points_of) ∷ behind
  pub first : known g before ≡ false

pub known-Split : (g : Bytes) (es : List Entry) → known g es ≡ true → Split g es
known-Split g [] k = cc
known-Split g ((x, v) ∷ es) k = elim (Bool-cases (str_eq g x)) [
  | inl same ↦ record {
    before = [];
    points_of = v;
    behind = es;
    splits = rw ((str_eq_iff g x).0 same);
    first = refl;
  }
  | inr other ↦
      let rest = known-Split g es (rw other at k) in
      record {
        before = (x, v) ∷ rest.before;
        points_of = rest.points_of;
        behind = rest.behind;
        splits = ap (◌∷◌ (x, v)) rest.splits;
        first = rw other rest.first;
      }
]

pub index_of_giudice-known :
    (g : Bytes) (i : ℕ) (es : List Entry) (xs : List Bytes)
    → Named es
    → known g es ≡ false
    → str_eq g mark_null ≡ false
    → index_of_giudice g i (map name es ++ g ∷ xs) ≡ some (i + length es)
unfolding index_of_giudice
index_of_giudice-known g i [] xs h k n = rw (n, str_eq_refl g) (ground arith)
index_of_giudice-known g i ((x, v) ∷ es) xs h k n =
    ground (arith, index_of_giudice-known g (i + 1) es xs h.1)

pub add_vote-known :
    (g : Bytes) (v w : ℤ) (es later : List Entry)
    → known g es ≡ false
    → add_vote g v (es ++ (g, w) ∷ later) ≡ es ++ (g, w +ℤ v) ∷ later
add_vote-known g v w [] later k = rw (str_eq_refl g)
add_vote-known g v w ((x, u) ∷ es) later k = ground (arith, add_vote-known g v w es later)
