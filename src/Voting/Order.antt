-- ===== src/Voting/Order.antt =====
-- The sort of a list of entries puts them in descending order, and only moves them.
use mathlib.Core.List.{Perm}
use mathlib.Core.List.Perm
use lab_reti_di_calcolatori.Base.{
  ℕ, zero, suc, List, [], ◌∷◌, ◌≡◌, refl, arith, Bool-cases, inl, inr, length, All,
}
use lab_reti_di_calcolatori.Base.Int.{◌≤ℤ◌, ltb_ℤ}
use lab_reti_di_calcolatori.Voting.Standings.{Entry, points}
use lab_reti_di_calcolatori.Voting.Sorting.{
  front, bubble, sorted, Descending, bubble-cons, sorted-suc,
}

front-perm : (x : Entry) (ys : List Entry) → Perm (x ∷ ys) (front x ys)
front-perm x [] = Perm.refl (x ∷ [])
front-perm x (y ∷ ys) = elim (Bool-cases (ltb_ℤ (points x) (points y))) [
  | inl less ↦ rw less (Perm.swap y x ys)
  | inr not_less ↦ rw not_less (Perm.refl (x ∷ y ∷ ys))
]

bubble-perm : (es : List Entry) → Perm es (bubble es)
bubble-perm [] = Perm.refl []
bubble-perm (x ∷ xs) = Perm.trans (Perm.cons x (bubble-perm xs)) (front-perm x (bubble xs))

pub sorted-perm : (k : ℕ) (es : List Entry) → length es ≡ suc k → Perm es (sorted k es)
sorted-perm zero es h = Perm.refl es
sorted-perm (suc k) es h =
    let (z, zs, head, len) = bubble-cons es (suc k) h in
    rw (sorted-suc k es head)
      (Perm.trans (rw head at (bubble-perm es)) (Perm.cons z (sorted-perm k zs len)))

-- The first entry has the most votes.
abbrev Leads : List Entry → Type 0
Leads [] = Unit
Leads (z ∷ zs) = All (λ f. points f ≤ℤ points z) zs

module _ (P : Entry → Type 0) where
  front-All : (x : Entry) (ys : List Entry) → P x → All P ys → All P (front x ys)
  front-All x [] hx h = (hx, tt)
  front-All x (y ∷ ys) hx h = ground arith

  bubble-All : (es : List Entry) → All P es → All P (bubble es)
  bubble-All [] h = tt
  bubble-All (x ∷ xs) h = front-All x (bubble xs) h.0 (bubble-All xs h.1)

  pub sorted-All : (k : ℕ) (es : List Entry) → length es ≡ suc k → All P es → All P (sorted k es)
  sorted-All zero es e h = h
  sorted-All (suc k) es e h =
      let (z, zs, head, len) = bubble-cons es (suc k) e in
      let h' = rw head at (bubble-All es h) in
      rw (sorted-suc k es head) (h'.0, sorted-All k zs len h'.1)

bubble-Leads : (es : List Entry) → Leads (bubble es)
bubble-Leads [] = tt
bubble-Leads (x ∷ xs) = front-Leads x (bubble xs) (bubble-Leads xs)
  where
    weaken :
        (x y : Entry) (ys : List Entry)
        → points y ≤ℤ points x
        → All (λ f. points f ≤ℤ points y) ys
        → All (λ f. points f ≤ℤ points x) ys
    weaken x y [] l h = tt
    weaken x y (f ∷ ys) l h = (omega (arith, l, h.0), weaken x y ys l h.1)

    front-Leads : (x : Entry) (ys : List Entry) → Leads ys → Leads (front x ys)
    front-Leads x [] h = tt
    front-Leads x (y ∷ ys) h = ground (arith, weaken x y ys)

pub sorted-Descending : (k : ℕ) (es : List Entry) → length es ≡ suc k → Descending (sorted k es)
sorted-Descending zero [] e = absurd (omega arith)
sorted-Descending zero (x ∷ []) e = (tt, tt)
sorted-Descending zero (x ∷ y ∷ ys) e = absurd (omega arith)
sorted-Descending (suc k) es e =
    let (z, zs, head, len) = bubble-cons es (suc k) e in
    let most = rw head at (bubble-Leads es) in
    rw (sorted-suc k es head)
      (sorted-All (λ f. points f ≤ℤ points z) k zs len most, sorted-Descending k zs len)

pub length-sorted : (k : ℕ) (es : List Entry) → length es ≡ suc k → length (sorted k es) ≡ length es
length-sorted zero es e = refl
length-sorted (suc k) es e =
    let (z, zs, head, len) = bubble-cons es (suc k) e in
    rw (sorted-suc k es head) (omega (arith, length-sorted k zs len))
