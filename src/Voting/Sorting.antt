-- ===== src/Voting/Sorting.antt =====
-- The bubble sort of the parallel arrays, against a sort of a list of entries.
use lab_reti_di_calcolatori.Base.{
  ℕ, zero, suc, ◌+◌, ◌-◌, Option, none, some, List, [], ◌∷◌, ◌++◌, map, ◌≡◌, refl, sym, ap, ◌∙◌,
  arith, if◌then◌else◌, ◌>>=◌, Bool-cases, inl, inr, length, length-map, map_around, get_elem?,
  get_elem?-append, store, store-append, All, append_assoc, length-append,
}
use lab_reti_di_calcolatori.Base.Int.{ℤ, ◌≤ℤ◌, ltb_ℤ}
use lab_reti_di_calcolatori.Base.CString.{Bytes}
use lab_reti_di_calcolatori.Voting.{Tally, exchange, sort_step, sort_inner, sort_outer}
use lab_reti_di_calcolatori.Voting.Standings.{Entry, name, points}

abbrev pub front : Entry → List Entry → List Entry
front x [] = x ∷ []
front x (y ∷ ys) = if ltb_ℤ (points x) (points y) then y ∷ x ∷ ys else x ∷ y ∷ ys

-- One pass of the inner loop: the greatest entry comes to the front.
abbrev pub bubble : List Entry → List Entry
bubble [] = []
bubble (x ∷ xs) = front x (bubble xs)

abbrev pub sorted : ℕ → List Entry → List Entry
sorted zero es = es
sorted (suc k) es = elim (bubble es) [ [] ↦ [] | z ∷ zs ↦ z ∷ sorted k zs ]

-- No entry has fewer votes than one behind it.
abbrev pub Descending : List Entry → Type 0
Descending [] = Unit
Descending (e ∷ es) = All (λ f. points f ≤ℤ points e) es × Descending es

-- The arrays that hold these entries, with the rest of each array behind them.
abbrev pub arrays : List Entry → List Bytes → List ℤ → ℕ → Tally
arrays es gs vs n = record {
  giudici = map name es ++ gs;
  voti = map points es ++ vs;
  n_giudici = n;
}

get_second {ℓ} :
    {A : Type ℓ} (j : ℕ) (pre : List A) (x y : A) (post : List A)
    → j ≡ length pre + 1
    → get_elem? (pre ++ x ∷ y ∷ post) j ≡ some y
get_second zero pre x y post e = absurd (omega arith)
get_second (suc j) [] x y post e = let e' : j ≡ 0 = omega arith in rw e'
get_second (suc j) (p ∷ pre) x y post e = get_second j pre x y post (omega arith)

store_second {ℓ} :
    {A : Type ℓ} (j : ℕ) (pre : List A) (x y v : A) (post : List A)
    → j ≡ length pre + 1
    → store (pre ++ x ∷ y ∷ post) j v ≡ some (pre ++ x ∷ v ∷ post)
store_second zero pre x y v post e = absurd (omega arith)
store_second (suc j) [] x y v post e = let e' : j ≡ 0 = omega arith in rw e'
store_second (suc j) (p ∷ pre) x y v post e = rw (store_second j pre x y v post (omega arith))

exchange_second {ℓ} :
    {A : Type ℓ} (j : ℕ) (pre : List A) (x y : A) (post : List A)
    → j ≡ length pre + 1
    → exchange j (pre ++ x ∷ y ∷ post) ≡ some (pre ++ y ∷ x ∷ post)
unfolding exchange
exchange_second j pre x y post e =
    let e' : j - 1 ≡ length pre = omega arith in
    rw (get_second j pre x y post e) (
      rw (get_elem?-append pre (y ∷ post) x (j - 1) e')
        (rw (store_second j pre x y x post e) (store-append pre (x ∷ post) x y (j - 1) e')))

exchange-map {ℓ} :
    {B : Type ℓ} (f : Entry → B) (j : ℕ) (pre : List Entry) (x y : Entry) (post : List Entry)
    (zs : List B)
    → j ≡ length pre + 1
    → exchange j (map f (pre ++ x ∷ y ∷ post) ++ zs) ≡ some (map f (pre ++ y ∷ x ∷ post) ++ zs)
exchange-map f j pre x y post zs e =
    rw (map_around f pre (x ∷ y ∷ post) zs, map_around f pre (y ∷ x ∷ post) zs)
      (exchange_second j (map f pre) (f x) (f y) _ (e ∙ ap (λ k. k + 1) (sym (length-map f pre))))

sort_step_at :
    (j : ℕ) (pre : List Entry) (x y : Entry) (post : List Entry) (gs : List Bytes) (vs : List ℤ)
    (n : ℕ)
    → j ≡ length pre + 1
    → sort_step j (arrays (pre ++ x ∷ y ∷ post) gs vs n)
      ≡ some (arrays (pre ++ front x (y ∷ post)) gs vs n)
unfolding sort_step
sort_step_at j pre x y post gs vs n e =
    let split = map_around points pre (x ∷ y ∷ post) vs in
    let e' : j - 1 ≡ length (map points pre) = omega (arith, length-map points pre) in
    let ep : j ≡ length (map points pre) + 1 = omega (arith, length-map points pre) in
    let at_j : get_elem? (map points (pre ++ x ∷ y ∷ post) ++ vs) j ≡ some (points y) =
      rw split (get_second j (map points pre) _ _ _ ep) in
    let at_prev : get_elem? (map points (pre ++ x ∷ y ∷ post) ++ vs) (j - 1) ≡ some (points x) =
      rw split (get_elem?-append (map points pre) _ _ _ e') in
    rw at_j (
      rw at_prev (elim (Bool-cases (ltb_ℤ (points x) (points y))) [
        | inl less ↦ rw less (
            rw (exchange-map points j pre x y post vs e)
              (rw (exchange-map name j pre x y post gs e)))
        | inr not_less ↦ rw not_less
      ]))

bind_some {ℓ} : {A : Type ℓ} (m : Option A) → (m >>= some) ≡ m
bind_some none = refl
bind_some (some a) = refl

bind_ap {ℓ} :
    {A : Type ℓ} (m : Option A) (f g h : A → Option A)
    → ((a : A) → f a ≡ (g a >>= h))
    → (m >>= f) ≡ ((m >>= g) >>= h)
bind_ap none f g h e = refl
bind_ap (some a) f g h e = e a

-- The inner loop, taken apart at its last round.
sort_inner_last :
    (k j : ℕ) (t : Tally) → sort_inner (suc k) j t ≡ (sort_inner k j t >>= sort_step (j - k))
unfolding sort_inner
sort_inner_last zero j t = let e : j - 0 ≡ j = omega arith in rw e (bind_some (sort_step j t))
sort_inner_last (suc k) j t =
    let e : j - suc k ≡ j - 1 - k = omega arith in
    rw e (bind_ap (sort_step j t) _ _ _ (λ u. sort_inner_last k (j - 1) u))

pub length-bubble : (es : List Entry) → length (bubble es) ≡ length es
length-bubble [] = refl
length-bubble (x ∷ xs) = length-front x (bubble xs) ∙ ap suc (length-bubble xs)
  where
    length-front : (x : Entry) (ys : List Entry) → length (front x ys) ≡ suc (length ys)
    length-front x [] = refl
    length-front x (y ∷ ys) = ground arith

-- What a pass makes of a list that is not empty.
pub bubble-cons :
    (es : List Entry) (k : ℕ)
    → length es ≡ suc k
    → (z : Entry) × (zs : List Entry) × (bubble es ≡ z ∷ zs) × (length zs ≡ k)
bubble-cons es k h = split (bubble es) (length-bubble es ∙ h)
  where
    split :
        (fs : List Entry)
        → length fs ≡ suc k
        → (z : Entry) × (zs : List Entry) × (fs ≡ z ∷ zs) × (length zs ≡ k)
    split [] e = absurd (omega arith)
    split (z ∷ zs) e = (z, zs, refl, omega arith)

-- One round of the sort, where the pass is known.
pub sorted-suc :
    (k : ℕ) (es : List Entry) {z : Entry} {zs : List Entry}
    → bubble es ≡ z ∷ zs
    → sorted (suc k) es ≡ z ∷ sorted k zs
sorted-suc k es e = rw (e, sorted)

module _ (gs : List Bytes) (vs : List ℤ) (n : ℕ) where
  -- The inner loop over the places behind `pre` is one pass.
  sort_inner-bubble :
      (es pre : List Entry) (rounds j : ℕ)
      → suc rounds ≡ length es
      → j ≡ length pre + rounds
      → sort_inner rounds j (arrays (pre ++ es) gs vs n) ≡ some (arrays (pre ++ bubble es) gs vs n)
  sort_inner-bubble [] pre rounds j r e = absurd (omega arith)
  sort_inner-bubble (x ∷ []) pre zero j r e = unfold sort_inner in refl
  sort_inner-bubble (x ∷ []) pre (suc rounds) j r e = absurd (omega arith)
  sort_inner-bubble (x ∷ y ∷ ys) pre zero j r e = absurd (omega arith)
  sort_inner-bubble (x ∷ y ∷ ys) pre (suc rounds) j r e =
      let (z, zs, head, _) = bubble-cons (y ∷ ys) (length ys) refl in
      let ih : sort_inner rounds j (arrays (pre ++ x ∷ y ∷ ys) gs vs n)
          ≡ some (arrays (pre ++ x ∷ bubble (y ∷ ys)) gs vs n) =
        rw (← append_assoc pre (x ∷ []) (y ∷ ys), ← append_assoc pre (x ∷ []) (bubble (y ∷ ys)))
          (sort_inner-bubble (y ∷ ys) (pre ++ x ∷ []) rounds j (omega arith)
            (omega (arith, length-append pre (x ∷ [])))) in
      sort_inner_last rounds j _
      ∙ rw ih (rw head (sort_step_at (j - rounds) pre x z zs gs vs n (omega arith)))

  -- The outer loop from place `length pre` sorts what stands there.
  pub sort_outer-sorted :
      (rounds : ℕ) (es pre : List Entry)
      → length es ≡ suc rounds
      → n ≡ length pre + length es
      → sort_outer rounds (length pre) (arrays (pre ++ es) gs vs n)
        ≡ some (arrays (pre ++ sorted rounds es) gs vs n)
  unfolding sort_outer
  sort_outer-sorted zero es pre h e = refl
  sort_outer-sorted (suc rounds) es pre h e =
      let (z, zs, head, len) = bubble-cons es (suc rounds) h in
      let pass : sort_inner (n - 1 - length pre) (n - 1) (arrays (pre ++ es) gs vs n)
          ≡ some (arrays ((pre ++ z ∷ []) ++ zs) gs vs n) =
        rw (append_assoc pre (z ∷ []) zs, ← head)
          (sort_inner-bubble es pre (n - 1 - length pre) (n - 1) (omega arith) (omega arith)) in
      let place : length pre + 1 ≡ length (pre ++ z ∷ []) =
        omega (arith, length-append pre (z ∷ [])) in
      rw pass (
        rw (sorted-suc rounds es head, place)
          (sort_outer-sorted rounds zs (pre ++ z ∷ []) len
              (omega (arith, length-append pre (z ∷ [])))
            ∙ rw (append_assoc pre (z ∷ []) (sorted rounds zs))))
