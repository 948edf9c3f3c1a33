-- ===== src/Filter/Tests.antt =====
-- Runs of the filter, and the theorems at concrete inputs.
use lab_reti_di_calcolatori.Base.{some, [], ◌∷◌, ◌≡◌, refl, arith, replicate}
use lab_reti_di_calcolatori.Base.CString.{codes}
use lab_reti_di_calcolatori.Filter.{consumatore}
use lab_reti_di_calcolatori.Filter.Cleared.{consumatore_cleared}
use lab_reti_di_calcolatori.Filter.Garbage.{consumatore_garbage}

consumatore_cleared_example :
    consumatore (replicate 256 0) (codes "aba") (codes "banana split") ≡ some (codes "nn split")
consumatore_cleared_example =
    consumatore_cleared b'a' (codes "ba") (codes "banana split") 256 (refl, (refl, (refl, tt)))
      (omega arith)

consumatore_garbage_run :
    consumatore (0 ∷ b'x' ∷ replicate 254 7) (codes "aa") (codes "x") ≡ some []
consumatore_garbage_run = consumatore_garbage b'a' b'x' 0 7 (replicate 253 7) refl refl
