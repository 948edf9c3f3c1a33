-- ===== src/Counting/Files.antt =====
-- What `contafile` counts.
use lab_reti_di_calcolatori.Base.{
  ℕ, ◌+◌, ◌<◌, ◌≤◌, ◌^◌, Bool, Option, some, Bool-cases, inl, inr, [], ◌∷◌, ◌≡◌, ◌||◌, refl, false,
  ◌∙◌, arith, if◌then◌else◌, ◌==◌, length,
}
use lab_reti_di_calcolatori.Base.Int.{pos, add_int, ◌+ℤ◌}
use lab_reti_di_calcolatori.Base.CString.{Bytes}
use lab_reti_di_calcolatori.Counting.{Res, count_char, count_file, contafile}

-- How many bytes pass a test.
abbrev pub count_if : (ℕ → Bool) → Bytes → ℕ
count_if p [] = 0
count_if p (c ∷ cs) = if p c then count_if p cs + 1 else count_if p cs

abbrev pub is_gap : ℕ → Bool
is_gap c = c == b' ' || c == b'\n'

abbrev pub is_newline : ℕ → Bool
is_newline c = c == b'\n'

abbrev pub totals : ℕ → ℕ → ℕ → Res
totals a b c = record { first = pos a; second = pos b; third = pos c }

add_int_one : (n : ℕ) → n + 1 < 2 ^ 31 → add_int (pos n) (pos 1) ≡ some (pos (n + 1))
unfolding add_int ◌+ℤ◌
add_int_one n h = ground arith

count_char_lem :
    (c a b d : ℕ)
    → a + 1 < 2 ^ 31
    → b ≤ a
    → d ≤ a
    → count_char c (totals a b d)
      ≡ some (totals (a + 1) (if is_gap c then b + 1 else b) (if is_newline c then d + 1 else d))
unfolding count_char
count_char_lem c a b d h k l =
    let one_a = add_int_one a h in
    let one_b = add_int_one b (omega arith) in
    let one_d = add_int_one d (omega arith) in
    elim (Bool-cases (c == b' ')) [
      | inl space ↦
          let other : (c == b'\n') ≡ false = ground arith in
          rw (one_a, space) (rw (one_b, other) refl)
      | inr other ↦ elim (Bool-cases (c == b'\n')) [
        | inl newline ↦ rw (one_a, other) (rw newline (rw (one_b, one_d) refl))
        | inr other' ↦ rw (one_a, other) (rw other' refl)
      ]
    ]

some-totals :
    (a b d a' b' d' : ℕ) → a ≡ a' → b ≡ b' → d ≡ d' → some (totals a b d) ≡ some (totals a' b' d')
some-totals a b d a' b' d' h k l = rw (h, k, l) refl

count_file_lem :
    (cs : Bytes) (a b d : ℕ)
    → a + length cs < 2 ^ 31
    → b ≤ a
    → d ≤ a
    → count_file cs (totals a b d)
      ≡ some (totals (a + length cs) (b + count_if is_gap cs) (d + count_if is_newline cs))
unfolding count_file
count_file_lem [] a b d h k l = some-totals _ _ _ _ _ _ (omega arith) (omega arith) (omega arith)
count_file_lem (c ∷ cs) a b d h k l =
    let b' = if is_gap c then b + 1 else b in
    let d' = if is_newline c then d + 1 else d in
    let rest = count_file_lem cs (a + 1) b' d' (omega arith) (ground arith) (ground arith) in
    rw (count_char_lem c a b d (omega arith) k l)
      (rest ∙ some-totals _ _ _ _ _ _ (omega arith) (ground arith) (ground arith))

-- For a file that can be opened and has fewer than 2^31 bytes, `contafile` returns the number of its
-- bytes, of its spaces and newlines together, and of its newlines.
pub contafile_lem :
    (open_file : Bytes → Option Bytes) (nomefile content : Bytes)
    → open_file nomefile ≡ some content
    → length content < 2 ^ 31
    → contafile open_file nomefile
      ≡ some (totals (length content) (count_if is_gap content) (count_if is_newline content))
unfolding contafile
contafile_lem open_file nomefile content opened small =
    rw (contafile, opened)
      (count_file_lem content 0 0 0 (omega arith) (omega arith) (omega arith)
        ∙ some-totals _ _ _ _ _ _ (omega arith) (omega arith) (omega arith))
