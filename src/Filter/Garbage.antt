-- ===== src/Filter/Garbage.antt =====
-- The filter where its array starts out with anything.
use lab_reti_di_calcolatori.Base.{ℕ, false, some, [], ◌∷◌, ◌≡◌, ◌==◌, arith}
use lab_reti_di_calcolatori.Base.CString.{Bytes}
use lab_reti_di_calcolatori.Filter.{strchr, skim, skimmed, copy, consumatore}

-- A filter that repeats its character `c` also removes the character `x` that the array holds behind
-- the first place: the terminator is stored at `i`, not at `j`, and `x` stays in front of it.
pub consumatore_garbage :
    (c x first third : ℕ) (stack : Bytes)
    → (c == 0) ≡ false
    → (x == 0) ≡ false
    → consumatore (first ∷ x ∷ third ∷ stack) (c ∷ c ∷ []) (x ∷ []) ≡ some []
unfolding consumatore skimmed skim copy strchr
consumatore_garbage c x first third stack nc nx = ground arith
