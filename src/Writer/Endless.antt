-- ===== src/Writer/Endless.antt =====
-- The loop of esercitazione_0/scrittore.c has no end.
use lab_reti_di_calcolatori.Base.{
  if◌then◌else◌, ltb, ℕ, zero, suc, ◌+◌, ◌<◌, ◌≤◌, ◌^◌, true, none, some, [], ◌++◌, ◌≡◌, refl, sym,
  ◌∙◌, arith, lt→ltb, le→ltb, append_assoc, append-nil, take,
}
use native.Mathlib.Decide.{dec_lt}
use lab_reti_di_calcolatori.Base.Int.{count_up, count_up_lem}
use lab_reti_di_calcolatori.Base.CString.{Bytes}
use lab_reti_di_calcolatori.Writer.{string, rounds_bound, within, write_rounds, scrittore}

-- What this many calls of `write` write, from call `i`.
abbrev pub pieces : (ℕ → ℕ) → ℕ → ℕ → Bytes
pieces takes zero i = []
pieces takes (suc rounds) i = take (takes i) string ++ pieces takes rounds (i + 1)

some-within :
    (n m : ℕ) (file text : Bytes)
    → n ≡ m
    → file ≡ text
    → some (within n file) ≡ some (within m text)
some-within n m file text same equal = rw (same, equal)

count_up_past : (n : ℕ) → 2 ^ 31 ≤ n + 1 → count_up n ≡ none
unfolding count_up
count_up_past n h = ground arith

write_rounds-pieces :
    (takes : ℕ → ℕ) (rounds i : ℕ) (file : Bytes)
    → i + rounds < 2 ^ 31
    → write_rounds takes rounds i file ≡ some (within (i + rounds) (file ++ pieces takes rounds i))
unfolding write_rounds
write_rounds-pieces takes zero i file h =
    rw (lt→ltb i rounds_bound (omega arith))
      (some-within _ _ _ _ (omega arith) (sym (append-nil file)))
write_rounds-pieces takes (suc rounds) i file h = rw (lt→ltb i rounds_bound (omega arith)) (
    rw (count_up_lem i (omega arith)) (
      write_rounds-pieces takes rounds (i + 1) (file ++ take (takes i) string) (omega arith)
      ∙ some-within _ _ _ _ (omega arith)
          (append_assoc file (take (takes i) string) (pieces takes rounds (i + 1)))))

write_rounds_overflow :
    (takes : ℕ → ℕ) (rounds i : ℕ) (file : Bytes)
    → i < 2 ^ 31
    → 2 ^ 31 ≤ i + rounds
    → write_rounds takes rounds i file ≡ none
unfolding write_rounds
write_rounds_overflow takes zero i file h k = absurd (omega arith)
write_rounds_overflow takes (suc rounds) i file h k =
    rw (lt→ltb i rounds_bound (omega arith)) (elim (dec_lt (i + 1) (2 ^ 31)) [
      | yes fits ↦
          rw (count_up_lem i fits) (write_rounds_overflow takes rounds (i + 1) _ fits (omega arith))
      | no over ↦ rw (count_up_past i (omega arith))
    ])

-- The loop has no end: after any number of rounds below 2^31 the program is still in it, with what so many calls of
-- `write` write in its file, and the next round makes its counter overflow. Its bound is never met.
pub scrittore_endless :
    (takes : ℕ → ℕ) (rounds : ℕ)
    → scrittore true takes rounds
      ≡ (if ltb rounds (2 ^ 31) then some (within rounds (pieces takes rounds 0)) else none)
unfolding scrittore
scrittore_endless takes rounds = elim (dec_lt rounds (2 ^ 31)) [
  | yes small ↦ rw (lt→ltb rounds (2 ^ 31) small) (
      write_rounds-pieces takes rounds 0 [] (omega arith)
      ∙ some-within (0 + rounds) rounds _ _ (omega arith) refl)
  | no large ↦
      rw (le→ltb rounds (2 ^ 31) (omega arith))
        (write_rounds_overflow takes rounds 0 [] (omega arith) (omega arith))
]
