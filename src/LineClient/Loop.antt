-- ===== src/LineClient/Loop.antt =====
-- The loop over a file of esercitazione_3/es2/clientTCP.c, beside the lines that the server sends for it.
use mathlib.Core.Bool.{false≢true}
use lab_reti_di_calcolatori.Base.{
  ℕ, ◌+◌, ◌<◌, ◌≤◌, All, ◌^◌, Bool, true, false, some, List, [], ◌∷◌, ◌++◌, ◌==◌, ◌≡◌, refl, ap,
  arith, length, Bool-cases, inl, inr,
}
use lab_reti_di_calcolatori.Base.Int.{ℤ, count_up_lem}
use lab_reti_di_calcolatori.Base.CString.{Bytes}
use lab_reti_di_calcolatori.Lines.{is_riga}
use lab_reti_di_calcolatori.Lines.Text.{
  lines, prepend, kept, join, prepend-extend, prepend_nil-lines,
}
use lab_reti_di_calcolatori.LineClient.{send_file}
use lab_reti_di_calcolatori.Base.Array.{Closed, Closed-read_string, Closed-stored, stored}

-- A call of `send` with no bytes sends nothing.
abbrev pub nonempty : List Bytes → List Bytes
nonempty [] = []
nonempty ([] ∷ ls) = nonempty ls
nonempty ((c ∷ l) ∷ ls) = (c ∷ l) ∷ nonempty ls

abbrev pub is_empty : Bytes → Bool
is_empty [] = true
is_empty (c ∷ cs) = false

-- No line has more bytes.
abbrev pub AtMost : ℕ → List Bytes → Type 0
AtMost m = All (λ l. length l ≤ m)

-- The last byte, if there is one, is a newline.
abbrev pub ends_line : Bool → Bytes → Bool
ends_line b [] = b
ends_line b (c ∷ cs) = ends_line (c == b'\n') cs

nonempty_line :
    (w : Bytes) (c : ℕ) (ls : List Bytes)
    → nonempty ((w ++ c ∷ []) ∷ ls) ≡ (w ++ c ∷ []) ∷ nonempty ls
nonempty_line [] c ls = refl
nonempty_line (b ∷ w) c ls = refl

pub is_empty_line : (w : Bytes) (c : ℕ) → is_empty (w ++ c ∷ []) ≡ false
is_empty_line [] c = refl
is_empty_line (b ∷ w) c = refl

pub nonempty-append : (a b : List Bytes) → nonempty (a ++ b) ≡ nonempty a ++ nonempty b
nonempty-append [] b = refl
nonempty-append ([] ∷ a) b = nonempty-append a b
nonempty-append ((c ∷ l) ∷ a) b = ap (◌∷◌ (c ∷ l)) (nonempty-append a b)

-- What is left of a file that ends with a newline, behind `w` of its line.
abbrev Answered : ℤ → ℕ → Bytes → Bytes → List Bytes → Bytes → Type 0
Answered riga n w content more buff =
    let answer = kept riga (n + 1) (prepend w (lines content)) in
    (array : Bytes) × (send_file riga content n buff (nonempty answer ++ more)
      ≡ some (record { written = join answer; later = more; buff = array; stuck = false }))
    × Closed array

send_file_line :
    (riga : ℤ) (c n : ℕ) (content w : Bytes) (more : List Bytes) (buff : Bytes)
    → (c == b'\n') ≡ true
    → n + 1 < 2 ^ 31
    → length (w ++ c ∷ []) ≤ 255
    → Closed buff
    → ((b : Bytes) → Closed b → Answered riga (n + 1) [] content more b)
    → Answered riga n w (c ∷ content) more buff
unfolding send_file
send_file_line riga c n content w more buff newline small few closed ih =
    elim (Bool-cases (is_riga riga (n + 1))) [
      | inl this ↦
          let (array, run, still) = ih buff closed in
          (
            array,
            rw newline
                (rw (count_up_lem n small) (rw this (rw (prepend_nil-lines content) at run))),
            still,
          )
      | inr other ↦
          let b = stored (w ++ c ∷ []) buff in
          let closed' = Closed-stored (w ++ c ∷ []) buff (omega arith) closed in
          let (line, reads) = Closed-read_string b closed' in
          let (array, run, still) = ih b closed' in
          (
            array,
            rw newline (
                rw (count_up_lem n small) (
                  rw (other, nonempty_line w c (kept riga (n + 1 + 1) (lines content)))
                    (rw reads (rw (rw (prepend_nil-lines content) at run) refl)))),
            still,
          )
    ]

pub send_file-kept :
    (riga : ℤ) (content w : Bytes) (n : ℕ) (more : List Bytes) (buff : Bytes)
    → n + length content < 2 ^ 31
    → ends_line (is_empty w) content ≡ true
    → AtMost 255 (prepend w (lines content))
    → Closed buff
    → Answered riga n w content more buff
unfolding send_file
send_file-kept riga [] [] n more buff small ends few closed =
    elim (Bool-cases (is_riga riga (n + 1))) [
      | inl this ↦ (buff, rw this refl, closed)
      | inr other ↦ (buff, rw other refl, closed)
    ]
send_file-kept riga [] (b ∷ w) n more buff small ends few closed = absurd (false≢true ends)
send_file-kept riga (c ∷ content) w n more buff small ends few closed =
    elim (Bool-cases (c == b'\n')) [
      | inl newline ↦
          let few' = rw newline at few in
          let short : length (w ++ c ∷ []) ≤ 255 = few'.0 in
          send_file_line riga c n content w more buff newline (omega arith) short closed (λ b h.
            send_file-kept riga content [] (n + 1) more b (omega arith) (rw newline at ends)
              (rw (prepend_nil-lines content) few'.1) h)
      | inr other ↦
          let few' = rw (prepend-extend w c (lines content)) at (rw other at few) in
          rw (other, prepend-extend w c (lines content))
            (send_file-kept riga content (w ++ c ∷ []) n more buff (omega arith)
              (rw (is_empty_line w c) (rw other at ends)) few' closed)
    ]
