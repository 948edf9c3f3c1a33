-- ===== src/LineClient/Texts.antt =====
-- Files whose last line ends with a newline, and what is left of them without a line.
use mathlib.Core.Bool.{false≢true}
use lab_reti_di_calcolatori.Base.{
  ℕ, ◌+◌, ◌≤◌, ◌<◌, ◌^◌, Bool, true, false, List, [], ◌∷◌, ◌++◌, ◌==◌, ◌≡◌, refl, sym, ap, ◌∙◌,
  subst, arith, length, length-append, append-nil, Bool-cases, inl, inr,
}
use lab_reti_di_calcolatori.Base.Int.{ℤ}
use lab_reti_di_calcolatori.Base.CString.{Bytes}
use lab_reti_di_calcolatori.Lines.{is_riga}
use lab_reti_di_calcolatori.Lines.Text.{
  lines, prepend, kept, join, Fits, prepend-extend, prepend_nil-lines, join-lines,
}
use lab_reti_di_calcolatori.LineClient.Loop.{AtMost, is_empty, ends_line, is_empty_line}

-- The server can send it back line by line.
abbrev pub IsShort : Bytes → Type 0
IsShort content = Fits (lines content) × (length content + 1 < 2 ^ 31)

-- And no byte stands behind its last newline, and the client can print its lines.
abbrev pub IsWhole : Bytes → Type 0
IsWhole content = (ends_line true content ≡ true) × (AtMost 255 (lines content) × IsShort content)

abbrev pub without : ℤ → Bytes → Bytes
without riga content = join (kept riga 1 (lines content))

abbrev NoNewline : Bytes → Type 0
NoNewline [] = Unit
NoNewline (c ∷ w) = ((c == b'\n') ≡ false) × NoNewline w

NoNewline-append :
    (w : Bytes) (c : ℕ) → NoNewline w → (c == b'\n') ≡ false → NoNewline (w ++ c ∷ [])
NoNewline-append [] c h other = (other, tt)
NoNewline-append (b ∷ w) c h other = (h.0, NoNewline-append w c h.1 other)

lines_line :
    (w ys : Bytes) (c : ℕ)
    → NoNewline w
    → (c == b'\n') ≡ true
    → lines ((w ++ c ∷ []) ++ ys) ≡ (w ++ c ∷ []) ∷ lines ys
lines_line [] ys c h newline = rw newline refl
lines_line (b ∷ w) ys c h newline = rw h.0 (rw (lines_line w ys c h.1 newline) refl)

ends_line_line :
    (b : Bool) (w ys : Bytes) (c : ℕ)
    → (c == b'\n') ≡ true
    → ends_line b ((w ++ c ∷ []) ++ ys) ≡ ends_line true ys
ends_line_line b [] ys c newline = ap (λ x. ends_line x ys) newline
ends_line_line b (a ∷ w) ys c newline = ends_line_line (a == b'\n') w ys c newline

length-kept :
    (riga : ℤ) (n : ℕ) (ls : List Bytes) → length (join (kept riga n ls)) ≤ length (join ls)
length-kept riga n [] = omega arith
length-kept riga n (l ∷ ls) = elim (Bool-cases (is_riga riga n)) [
  | inl this ↦ rw this (omega (arith, length-kept riga (n + 1) ls, length-append l (join ls)))
  | inr other ↦ rw other (
      omega (
        arith,
        length-kept riga (n + 1) ls,
        length-append l (join ls),
        length-append l (join (kept riga (n + 1) ls)),
      ))
]

lines_plain : (w : Bytes) → NoNewline w → lines w ≡ w ∷ []
lines_plain [] h = refl
lines_plain (b ∷ w) h = rw h.0 (rw (lines_plain w h.1))

kept-AtMost :
    (m : ℕ) (riga : ℤ) (content w : Bytes) (n : ℕ)
    → NoNewline w
    → AtMost m (prepend w (lines content))
    → AtMost m (lines (join (kept riga n (prepend w (lines content)))))
kept-AtMost m riga [] w n plain fits = elim (Bool-cases (is_riga riga n)) [
  | inl this ↦ rw this (omega arith, tt)
  | inr other ↦
      let same : lines ((w ++ []) ++ []) ≡ w ∷ [] =
        ap lines (append-nil (w ++ []) ∙ append-nil w) ∙ lines_plain w plain in
      rw other (subst (AtMost m) (sym same) (rw (append-nil w) at fits))
]
kept-AtMost m riga (c ∷ content) w n plain fits = elim (Bool-cases (c == b'\n')) [
  | inl newline ↦
      let fits' = rw newline at fits in
      let raw = kept-AtMost m riga content [] (n + 1) tt (rw (prepend_nil-lines content) fits'.1) in
      let ih = rw (prepend_nil-lines content) at raw in
      let ys = join (kept riga (n + 1) (lines content)) in
      elim (Bool-cases (is_riga riga n)) [
        | inl this ↦ rw newline (rw this ih)
        | inr other ↦
            rw newline
              (rw other (subst (AtMost m) (sym (lines_line w ys c plain newline)) (fits'.0, ih)))
      ]
  | inr other ↦
      rw (other, prepend-extend w c (lines content))
        (kept-AtMost m riga content (w ++ c ∷ []) n (NoNewline-append w c plain other)
          (rw (other, prepend-extend w c (lines content)) at fits))
]

kept-ends_line :
    (riga : ℤ) (content w : Bytes) (n : ℕ)
    → ends_line (is_empty w) content ≡ true
    → ends_line true (join (kept riga n (prepend w (lines content)))) ≡ true
kept-ends_line riga [] [] n closed = elim (Bool-cases (is_riga riga n)) [
  | inl this ↦ rw this
  | inr other ↦ rw other
]
kept-ends_line riga [] (b ∷ w) n closed = absurd (false≢true closed)
kept-ends_line riga (c ∷ content) w n closed = elim (Bool-cases (c == b'\n')) [
  | inl newline ↦
      let raw = kept-ends_line riga content [] (n + 1) (rw newline at closed) in
      let ih = rw (prepend_nil-lines content) at raw in
      let ys = join (kept riga (n + 1) (lines content)) in
      elim (Bool-cases (is_riga riga n)) [
        | inl this ↦ rw newline (rw this ih)
        | inr other ↦ rw newline (rw other (ends_line_line true w ys c newline ∙ ih))
      ]
  | inr other ↦
      rw (other, prepend-extend w c (lines content))
        (kept-ends_line riga content (w ++ c ∷ []) n (rw (is_empty_line w c) (rw other at closed)))
]

pub without-IsShort :
    (riga : ℤ) (content : Bytes) → IsShort content → IsShort (without riga content)
without-IsShort riga content (fits, small) =
    let raw = kept-AtMost 256 riga content [] 1 tt (rw (prepend_nil-lines content) fits) in
    (
      rw (prepend_nil-lines content) at raw,
      omega (arith, length-kept riga 1 (lines content), ap length (join-lines content), small),
    )

pub without-IsWhole :
    (riga : ℤ) (content : Bytes) → IsWhole content → IsWhole (without riga content)
without-IsWhole riga content (closed, (few, short)) =
    let raw = kept-ends_line riga content [] 1 closed in
    let bound = kept-AtMost 255 riga content [] 1 tt (rw (prepend_nil-lines content) few) in
    (
      rw (prepend_nil-lines content) at raw,
      (rw (prepend_nil-lines content) at bound, without-IsShort riga content short),
    )
