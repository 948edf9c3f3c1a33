-- ===== src/Lines/Text.antt =====
-- The lines of a file, each with its newline but the last.
use lab_reti_di_calcolatori.Base.{
  ℕ, ◌+◌, ◌≤◌, ◌<◌, List, [], ◌∷◌, ◌++◌, ◌≡◌, refl, ap, arith, if◌then◌else◌, ◌==◌, All, length,
  length-append, append_assoc, Bool-cases, inl, inr, ◌⊎◌,
}
use lab_reti_di_calcolatori.Base.Int.{ℤ, pos, negsuc}
use lab_reti_di_calcolatori.Base.CString.{Bytes}
use lab_reti_di_calcolatori.Lines.{is_riga, buff_size}

abbrev pub extend : ℕ → List Bytes → List Bytes
extend c [] = (c ∷ []) ∷ []
extend c (l ∷ ls) = (c ∷ l) ∷ ls

abbrev pub lines : Bytes → List Bytes
lines [] = [] ∷ []
lines (c ∷ cs) = if c == b'\n' then (c ∷ []) ∷ lines cs else extend c (lines cs)

abbrev pub prepend : Bytes → List Bytes → List Bytes
prepend w [] = w ∷ []
prepend w (l ∷ ls) = (w ++ l) ∷ ls

-- The lines but that of this number, where the first is number `n`.
abbrev pub kept : ℤ → ℕ → List Bytes → List Bytes
kept riga n [] = []
kept riga n (l ∷ ls) = if is_riga riga n then kept riga (n + 1) ls else l ∷ kept riga (n + 1) ls

abbrev pub join : List Bytes → Bytes
join [] = []
join (l ∷ ls) = l ++ join ls

abbrev pub Fits : List Bytes → Type 0
Fits = All (λ l. length l ≤ buff_size)

join-extend : (c : ℕ) (ls : List Bytes) → join (extend c ls) ≡ c ∷ join ls
join-extend c [] = refl
join-extend c (l ∷ ls) = refl

pub join-lines : (cs : Bytes) → join (lines cs) ≡ cs
join-lines [] = refl
join-lines (c ∷ cs) = ground (arith, join-lines cs, join-extend c (lines cs))

pub prepend-extend :
    (w : Bytes) (c : ℕ) (ls : List Bytes) → prepend w (extend c ls) ≡ prepend (w ++ c ∷ []) ls
prepend-extend w c [] = refl
prepend-extend w c (l ∷ ls) = rw (append_assoc w (c ∷ []) l)

prepend_nil-extend : (c : ℕ) (ls : List Bytes) → prepend [] (extend c ls) ≡ extend c ls
prepend_nil-extend c [] = refl
prepend_nil-extend c (l ∷ ls) = refl

pub prepend_nil-lines : (cs : Bytes) → prepend [] (lines cs) ≡ lines cs
prepend_nil-lines [] = refl
prepend_nil-lines (c ∷ cs) = elim (Bool-cases (c == b'\n')) [
  | inl newline ↦ rw newline
  | inr other ↦ rw other (prepend_nil-extend c (lines cs))
]

pub Fits-prepend : (w : Bytes) (ls : List Bytes) → Fits (prepend w ls) → length w ≤ buff_size
Fits-prepend w [] f = f.0
Fits-prepend w (l ∷ ls) f = omega (arith, f.0, length-append w l)

kept_past : (ls : List Bytes) (m n : ℕ) → m < n → kept (pos m) n ls ≡ ls
kept_past [] m n h = refl
kept_past (l ∷ ls) m n h = ground (arith, kept_past ls m (n + 1))

kept_before : (ls : List Bytes) (m n : ℕ) → n + length ls ≤ m → kept (pos m) n ls ≡ ls
kept_before [] m n h = refl
kept_before (l ∷ ls) m n h = ground (arith, kept_before ls m (n + 1))

kept_negative : (ls : List Bytes) (m n : ℕ) → kept (negsuc m) n ls ≡ ls
kept_negative [] m n = refl
kept_negative (l ∷ ls) m n = ap (◌∷◌ l) (kept_negative ls m (n + 1))

-- A line of this number is the only one left out.
pub kept_at :
    (before after : List Bytes) (l : Bytes) (m n : ℕ)
    → m ≡ n + length before
    → kept (pos m) n (before ++ l ∷ after) ≡ before ++ after
kept_at [] after l m n e = ground (arith, kept_past after m (n + 1))
kept_at (b ∷ before) after l m n e = ground (arith, kept_at before after l m (n + 1))

-- No line has this number, where the first is number 1.
abbrev pub NoLine : ℤ → List Bytes → Type 0
NoLine (pos m) ls = (m ≡ 0) ⊎ (length ls < m)
NoLine (negsuc m) ls = Unit

pub kept_none : (riga : ℤ) (ls : List Bytes) → NoLine riga ls → kept riga 1 ls ≡ ls
kept_none (pos m) ls (inl h) = kept_past ls m 1 (omega arith)
kept_none (pos m) ls (inr h) = kept_before ls m 1 (omega arith)
kept_none (negsuc m) ls h = kept_negative ls m 1
