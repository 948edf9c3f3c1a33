-- ===== src/Words/Deletion.antt =====
-- The reading loop deletes the word from the tokens of the file.
use native.Mathlib.Nat.{zero-add}
use native.Mathlib.Decide.{dec_lt}
use lab_reti_di_calcolatori.Base.{
  ℕ, ◌+◌, ◌<◌, ◌≤◌, ◌^◌, Bool, true, false, some, List, [], ◌∷◌, ◌++◌, map, ◌≡◌, ap, ap₂, ◌∙◌,
  arith, if◌then◌else◌, All-append, length, length-append, append_assoc, append-nil, leb, ◌||◌,
  none, lt→ltb, le→ltb, Bool-cases, inl, inr,
}
use lab_reti_di_calcolatori.Base.Int.{count_up_lem}
use lab_reti_di_calcolatori.Base.CString.{Bytes, str_eq, read_string-terminated, Without}
use lab_reti_di_calcolatori.Words.{
  is_separator, line_length, Scan, is_word, scan_byte, scan_end, scan, delete_word,
}
use lab_reti_di_calcolatori.Words.Tokens.{
  Token, text_of, flatten, tokens, prepend, without_word, occurrences, Fits, prepend-extend,
  prepend_nil-tokens, Fits-prepend,
}

is_word_lem :
    (p buf : Bytes) → Without 0 buf → length buf < line_length → is_word p buf ≡ some (str_eq p buf)
unfolding is_word
is_word_lem p buf h l = rw (lt→ltb _ _ l) (rw (read_string-terminated buf [] h))

scan_end_lem :
    (p : Bytes) (s : Scan)
    → Without 0 s.buf
    → length s.buf < line_length
    → s.result + 1 < 2 ^ 31
    → scan_end p s
      ≡ some (
        s.out ++ flatten (map (without_word p) (prepend s.buf (tokens []))),
        s.result + occurrences p (prepend s.buf (tokens [])),
      )
unfolding scan_end
scan_end_lem p s h l n = rw (append-nil s.buf) (
    rw (is_word_lem p s.buf h l) (elim (Bool-cases (str_eq p s.buf)) [
      | inl found ↦ rw found (
          rw (count_up_lem s.result n)
            (let e : s.result + 1 ≡ s.result + (1 + 0) = omega arith in rw (append-nil s.out, e)))
      | inr other ↦ rw other (
          let e : s.result ≡ s.result + (0 + 0) = omega arith in
          rw (append-nil s.buf, append-nil s.buf) (ap (λ k. some (s.out ++ s.buf, k)) e))
    ]))

-- A separator ends the word in the buffer.
scan_separator :
    (p : Bytes) (c : ℕ) (s : Scan)
    → is_separator c ≡ true
    → Without 0 s.buf
    → length s.buf < line_length
    → s.result + 1 < 2 ^ 31
    → scan_byte p c s
      ≡ some (record {
        buf = [];
        out = s.out ++ ((if str_eq p s.buf then [] else s.buf) ++ c ∷ []);
        result = s.result + (if str_eq p s.buf then 1 else 0);
      })
unfolding scan_byte
scan_separator p c s sep h l n = rw sep (
    rw (is_word_lem p s.buf h l) (elim (Bool-cases (str_eq p s.buf)) [
      | inl found ↦ rw found (rw (count_up_lem s.result n))
      | inr other ↦ rw other (let e : s.result ≡ s.result + 0 = omega arith in rw (← e))
    ]))

text_without :
    (p : Bytes) (t : Token)
    → text_of (without_word p t) ≡ (if str_eq p t.word then [] else t.word) ++ t.sep
text_without p t = ground arith

-- Any other byte goes to the buffer.
scan_letter :
    (p : Bytes) (c : ℕ) (s : Scan)
    → is_separator c ≡ false
    → length s.buf < line_length
    → scan_byte p c s ≡ some (record s { buf = s.buf ++ c ∷ [] })
unfolding scan_byte
scan_letter p c s letter l = rw letter (rw (lt→ltb _ _ l))

scan_lem :
    (p content : Bytes) (s : Scan)
    → Without 0 s.buf
    → Without 0 content
    → Fits (prepend s.buf (tokens content))
    → s.result + length content + 1 < 2 ^ 31
    → scan p content s
      ≡ some (
        s.out ++ flatten (map (without_word p) (prepend s.buf (tokens content))),
        s.result + occurrences p (prepend s.buf (tokens content)),
      )
unfolding scan
scan_lem p [] s h z f n = scan_end_lem p s h (Fits-prepend s.buf (tokens []) f) (omega arith)
scan_lem p (c ∷ cs) s h z f n = elim (Bool-cases (is_separator c)) [
  | inl sep ↦
      let f' = rw (sep, append-nil s.buf) at f in
      let s' : Scan = record {
        buf = [];
        out = s.out ++ ((if str_eq p s.buf then [] else s.buf) ++ c ∷ []);
        result = s.result + (if str_eq p s.buf then 1 else 0);
      } in
      let ih = scan_lem p cs s' tt z.1 (rw (prepend_nil-tokens cs) f'.1) (ground arith) in
      let ih' = rw (prepend_nil-tokens cs) at ih in
      let kept : Bytes = (if str_eq p s.buf then [] else s.buf) ++ c ∷ [] in
      let found : ℕ = if str_eq p s.buf then 1 else 0 in
      let rest = flatten (map (without_word p) (tokens cs)) in
      let sum : s.result + found + occurrences p (tokens cs)
          ≡ s.result + (found + occurrences p (tokens cs)) =
        omega arith in
      let same = ap₂ (λ (a : Bytes) (b : ℕ). some (a, b)) (append_assoc s.out kept rest) sum in
      rw (sep, append-nil s.buf)
        (rw (scan_separator p c s sep h f'.0 (omega arith))
          (ih' ∙ rw (text_without p (record { word = s.buf; sep = c ∷ [] })) same))
  | inr letter ↦
      let f' = rw (letter, prepend-extend s.buf c (tokens cs)) at f in
      let ih =
        scan_lem p cs (record s { buf = s.buf ++ c ∷ [] }) (All-append _ s.buf (c ∷ []) h (z.0, tt))
          z.1 f' (omega arith) in
      let l : length s.buf < line_length =
        omega
          (arith, Fits-prepend (s.buf ++ c ∷ []) (tokens cs) f', length-append s.buf (c ∷ [])) in
      rw (letter, prepend-extend s.buf c (tokens cs)) (rw (scan_letter p c s letter l) ih)
]

-- Where the file holds no zero byte, its words fit the buffer and it is shorter than 2^31 - 1
-- bytes, the loop ends without a fault: it has written the file with every occurrence of the word
-- deleted and all separators kept, and has counted the occurrences.
pub delete_word_lem :
    (p content : Bytes)
    → Without 0 content
    → Fits (tokens content)
    → length content + 1 < 2 ^ 31
    → delete_word p content
      ≡ some (flatten (map (without_word p) (tokens content)), occurrences p (tokens content))
unfolding delete_word
delete_word_lem p content z f n =
    rw (prepend_nil-tokens content, zero-add) at
      (scan_lem p content (record { buf = []; out = []; result = 0 }) tt z
        (rw (prepend_nil-tokens content) f) (omega arith))

-- Some word does not fit the buffer.
abbrev pub overlong : List Token → Bool
overlong [] = false
overlong (t ∷ ts) = leb line_length (length t.word) || overlong ts

is_word_full : (p buf : Bytes) → line_length ≤ length buf → is_word p buf ≡ none
unfolding is_word
is_word_full p buf h = rw (le→ltb _ _ h)

scan_full : (p : Bytes) (c : ℕ) (s : Scan) → line_length ≤ length s.buf → scan_byte p c s ≡ none
unfolding scan_byte
scan_full p c s h = elim (Bool-cases (is_separator c)) [
  | inl sep ↦ rw sep (rw (is_word_full p s.buf h))
  | inr letter ↦ rw letter (rw (le→ltb _ _ h))
]

scan_end_full : (p : Bytes) (s : Scan) → line_length ≤ length s.buf → scan_end p s ≡ none
unfolding scan_end
scan_end_full p s h = rw (is_word_full p s.buf h)

scan-overlong :
    (p content : Bytes) (s : Scan)
    → Without 0 s.buf
    → Without 0 content
    → overlong (prepend s.buf (tokens content)) ≡ true
    → s.result + length content + 1 < 2 ^ 31
    → scan p content s ≡ none
unfolding scan
scan-overlong p [] s h z o n = scan_end_full p s (ground (arith, append-nil s.buf))
scan-overlong p (c ∷ cs) s h z o n = elim (dec_lt (length s.buf) line_length) [
  | no full ↦ rw (scan_full p c s (omega arith))
  | yes l ↦ elim (Bool-cases (is_separator c)) [
    | inl sep ↦
        let o' : leb line_length (length s.buf) || overlong (tokens cs) ≡ true =
          rw (sep, append-nil s.buf) at o in
        rw (scan_separator p c s sep h l (omega arith))
          (scan-overlong p cs _ tt z.1 (rw (prepend_nil-tokens cs) (ground arith)) (ground arith))
    | inr letter ↦ rw (scan_letter p c s letter l) (
        scan-overlong p cs _ (All-append _ s.buf (c ∷ []) h (z.0, tt)) z.1
          (rw (letter, prepend-extend s.buf c (tokens cs)) at o) (omega arith))
  ]
]

-- A word of 256 bytes or more, in a file with no zero byte that is shorter than 2^31 - 1 bytes,
-- makes the loop write past its buffer.
pub delete_word-overlong :
    (p content : Bytes)
    → Without 0 content
    → overlong (tokens content) ≡ true
    → length content + 1 < 2 ^ 31
    → delete_word p content ≡ none
unfolding delete_word
delete_word-overlong p content z o n =
    scan-overlong p content _ tt z (rw (prepend_nil-tokens content) o) (omega arith)
