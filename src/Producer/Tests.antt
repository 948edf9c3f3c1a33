-- ===== src/Producer/Tests.antt =====
-- Runs of the producer, and the theorem at a concrete input.
use Prim.Native.Nat.{ℕ, ◌*◌}
use lab_reti_di_calcolatori.Base.{
  true, some, [], ◌∷◌, ◌≡◌, refl, arith, length, replicate, ltb, if◌then◌else◌,
}
use lab_reti_di_calcolatori.Base.CString.{codes}
use lab_reti_di_calcolatori.Filter.{consumatore}
use lab_reti_di_calcolatori.Producer.{System, write_all, produttore}
use lab_reti_di_calcolatori.Producer.Filtered.{ints, produttore-consumatore}

abbrev system : System
system = record { creates = λ name. true; writes = λ n. 4 }

-- The second `write` finds no room.
abbrev full : System
full = record { creates = λ name. true; writes = λ n. if ltb n 1 then 4 else 2 }

produttore_stops :
    produttore full (codes "p" ∷ codes "f" ∷ []) (codes "ab")
    ≡ record { code = 3; file = b'a' ∷ 0 ∷ 0 ∷ 0 ∷ b'b' ∷ 0 ∷ [] }
unfolding produttore write_all
produttore_stops = refl

produttore-consumatore_example :
    (◌≡◌ {A = ℕ} 0 0)
    × (length (ints (codes "banana")) ≡ 4 * length (codes "banana"))
    × (consumatore (replicate 256 0) (codes "a") (ints (codes "banana")) ≡ some (codes "bnn"))
    × (consumatore (replicate 256 0) (codes "a") (ints (codes "banana"))
        ≡ consumatore (replicate 256 0) (codes "a") (codes "banana"))
unfolding produttore write_all
produttore-consumatore_example =
    produttore-consumatore system (codes "p") (codes "f") (codes "banana") b'a' 256 [] refl
      (λ k. refl) (refl, tt) (omega arith)
