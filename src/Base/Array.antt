-- ===== src/Base/Array.antt =====
-- An array of 256 bytes that is filled from the front and read as a string.
use Prim.Native.Nat.{ℕ, zero, suc, ◌≤◌, ◌<◌}
use mathlib.Core.Path.{◌≡◌, refl, sym, ap, subst, ◌∙◌}
use mathlib.Core.Logic.{inl, inr}
use mathlib.Core.Option.{some}
use mathlib.Core.List.{[], ◌∷◌, ◌++◌, append_assoc}
use native.Mathlib.Omega.{arith}
use lab_reti_di_calcolatori.Base.Tests.{◌==◌, Bool-cases}
use lab_reti_di_calcolatori.Base.Lists.{
  length, take, take_all, drop, take-drop, length-append, length-drop,
}
use lab_reti_di_calcolatori.Base.CString.{Bytes, read_string}

-- The last of the 256 bytes is zero.
abbrev pub Closed : Bytes → Type 0
Closed b = (front : Bytes) × (rest : Bytes) × (length front ≡ 255) × (b ≡ front ++ 0 ∷ rest)

read_string_zero : (front rest : Bytes) → (s : Bytes) × (read_string (front ++ 0 ∷ rest) ≡ some s)
unfolding read_string
read_string_zero [] rest = ([], refl)
read_string_zero (c ∷ front) rest =
    let (s, e) = read_string_zero front rest in
    elim (Bool-cases (c == 0)) [
      | inl here ↦ ([], rw here refl)
      | inr later ↦ (c ∷ s, rw (later, e) refl)
    ]

pub Closed-read_string : (b : Bytes) → Closed b → (s : Bytes) × (read_string b ≡ some s)
Closed-read_string b (front, rest, size, e) =
    let (s, reads) = read_string_zero front rest in (s, ap read_string e ∙ reads)

drop_front :
    (k : ℕ) (front rest : Bytes) → k ≤ length front → drop k (front ++ rest) ≡ drop k front ++ rest
drop_front zero front rest h = refl
drop_front (suc k) [] rest h = absurd (omega arith)
drop_front (suc k) (c ∷ front) rest h = drop_front k front rest (omega arith)

-- Fewer than 256 bytes do not reach the last.
pub Closed-overlay :
    (k : ℕ) (chunk b : Bytes)
    → k ≤ length chunk
    → k < 256
    → Closed b
    → Closed (take k chunk ++ drop k b)
Closed-overlay k chunk b some_bytes few (front, rest, size, e) =
    let whole = length-append (take k chunk) (drop k chunk) in
    let same = ap (λ (b : Bytes). length b) (take-drop k chunk) in
    let behind = length-drop k chunk in
    let kept = length-drop k front in
    let both = length-append (take k chunk) (drop k front) in
    (
      take k chunk ++ drop k front,
      rest,
      omega arith,
      ap (λ b. take k chunk ++ drop k b) e
          ∙ (ap (λ b. take k chunk ++ b) (drop_front k front (0 ∷ rest) (omega arith))
              ∙ sym (append_assoc (take k chunk) (drop k front) (0 ∷ rest))),
    )

-- What the array holds when these bytes have come into its front.
abbrev pub stored : Bytes → Bytes → Bytes
stored chunk b = chunk ++ drop (length chunk) b

pub Closed-stored : (chunk b : Bytes) → length chunk < 256 → Closed b → Closed (stored chunk b)
Closed-stored chunk b few closed =
    subst (λ (c : Bytes). Closed (c ++ drop (length chunk) b))
      (take_all (length chunk) chunk (omega arith))
      (Closed-overlay (length chunk) chunk b (omega arith) few closed)
