-- ===== src/Words/Again.antt =====
-- Deleting a word leaves no occurrence of it: a second deletion finds none and changes nothing.
use lab_reti_di_calcolatori.Base.{
  ℕ, ◌+◌, ◌<◌, ◌≤◌, ◌^◌, true, false, some, List, [], ◌∷◌, ◌++◌, map, ◌≡◌, refl, ap, ◌∙◌, arith,
  All, All-append, All-split, length, append_assoc, append-nil, Bool-cases, inl, inr, length-append,
}
use lab_reti_di_calcolatori.Base.CString.{Bytes, str_eq, Without}
use lab_reti_di_calcolatori.Words.{is_separator, delete_word}
use lab_reti_di_calcolatori.Words.Tokens.{
  Token, text_of, flatten, tokens, extend, without_word, occurrences, Fits, flatten-tokens,
}
use lab_reti_di_calcolatori.Words.Deletion.{delete_word_lem}

abbrev Letters : Bytes → Type 0
Letters = All (λ c. is_separator c ≡ false)

-- The form that the tokens of a text have.
data IsCut : List Token → Type 0 where
  last : (w : Bytes) → Letters w → IsCut (record { word = w; sep = [] } ∷ [])
  more :
      {ts : List Token} (w : Bytes) (c : ℕ)
      → Letters w
      → is_separator c ≡ true
      → IsCut ts
      → IsCut (record { word = w; sep = c ∷ [] } ∷ ts)

extend-IsCut : {ts : List Token} (c : ℕ) → is_separator c ≡ false → IsCut ts → IsCut (extend c ts)
extend-IsCut c l (last w h) = last (c ∷ w) (l, h)
extend-IsCut c l (more w d h s t) = more (c ∷ w) d (l, h) s t

tokens-IsCut : (cs : Bytes) → IsCut (tokens cs)
tokens-IsCut [] = last [] tt
tokens-IsCut (c ∷ cs) = elim (Bool-cases (is_separator c)) [
  | inl sep ↦ rw sep (more [] c tt sep (tokens-IsCut cs))
  | inr letter ↦ rw letter (extend-IsCut c letter (tokens-IsCut cs))
]

without_word-IsCut : {ts : List Token} (p : Bytes) → IsCut ts → IsCut (map (without_word p) ts)
without_word-IsCut p (last w h) = elim (Bool-cases (str_eq p w)) [
  | inl found ↦ rw found (last [] tt)
  | inr other ↦ rw other (last w h)
]
without_word-IsCut p (more w c h s t) = elim (Bool-cases (str_eq p w)) [
  | inl found ↦ rw found (more [] c tt s (without_word-IsCut p t))
  | inr other ↦ rw other (more w c h s (without_word-IsCut p t))
]

tokens_last : (w : Bytes) → Letters w → tokens w ≡ record { word = w; sep = [] } ∷ []
tokens_last [] h = refl
tokens_last (c ∷ cs) h = rw (h.0, tokens_last cs h.1)

tokens_more :
    (w : Bytes) (c : ℕ) (rest : Bytes)
    → Letters w
    → is_separator c ≡ true
    → tokens (w ++ c ∷ rest) ≡ record { word = w; sep = c ∷ [] } ∷ tokens rest
tokens_more [] c rest h s = rw s
tokens_more (d ∷ w) c rest h s = rw (h.0, tokens_more w c rest h.1 s)

tokens-flatten : {ts : List Token} → IsCut ts → tokens (flatten ts) ≡ ts
tokens-flatten (last w h) = rw (append-nil w, append-nil w) (tokens_last w h)
tokens-flatten (more w c h s t) =
    rw (append_assoc w (c ∷ []) _)
      (tokens_more w c _ h s ∙ ap (◌∷◌ (record { word = w; sep = c ∷ [] })) (tokens-flatten t))

without_word_twice : (p : Bytes) (t : Token) → without_word p (without_word p t) ≡ without_word p t
without_word_twice p t = ground arith

map-without_word_twice :
    (p : Bytes) (ts : List Token)
    → map (without_word p) (map (without_word p) ts) ≡ map (without_word p) ts
map-without_word_twice p [] = refl
map-without_word_twice p (t ∷ ts) = rw (without_word_twice p t, map-without_word_twice p ts)

occurrences-without_word :
    (p : Bytes) (ts : List Token)
    → str_eq p [] ≡ false
    → occurrences p (map (without_word p) ts) ≡ 0
occurrences-without_word p [] h = refl
occurrences-without_word p (t ∷ ts) h = ground (arith, occurrences-without_word p ts h)

length-flatten_without :
    (p : Bytes) (ts : List Token) → length (flatten (map (without_word p) ts)) ≤ length (flatten ts)
length-flatten_without p [] = omega arith
length-flatten_without p (t ∷ ts) = omega (
  arith,
  length-flatten_without p ts,
  length-text_of p t,
  length-append (text_of t) (flatten ts),
  length-append (text_of (without_word p t)) (flatten (map (without_word p) ts)),
)
  where
    length-text_of :
        (p : Bytes) (t : Token) → length (text_of (without_word p t)) ≤ length (text_of t)
    length-text_of p t = ground (arith, length-append t.word t.sep)

Fits-without_word : (p : Bytes) (ts : List Token) → Fits ts → Fits (map (without_word p) ts)
Fits-without_word p [] f = tt
Fits-without_word p (t ∷ ts) f = ground (arith, Fits-without_word p ts f.1)

text_of-Without :
    (p : Bytes) (t : Token) → Without 0 (text_of t) → Without 0 (text_of (without_word p t))
text_of-Without p t h = elim (Bool-cases (str_eq p t.word)) [
  | inl found ↦ rw found (All-split _ t.word t.sep h).1
  | inr other ↦ rw other h
]

flatten-Without :
    (p : Bytes) (ts : List Token)
    → Without 0 (flatten ts)
    → Without 0 (flatten (map (without_word p) ts))
flatten-Without p [] h = tt
flatten-Without p (t ∷ ts) h =
    let (a, b) = All-split _ (text_of t) (flatten ts) h in
    All-append _ (text_of (without_word p t)) _ (text_of-Without p t a) (flatten-Without p ts b)

-- A file that the server can go through: no zero byte, words that fit its buffer, and fewer than 2^31 - 1
-- bytes.
abbrev pub IsText : Bytes → Type 0
IsText content = Without 0 content × Fits (tokens content) × (length content + 1 < 2 ^ 31)

-- The text without the occurrences of the word.
abbrev pub deleted : Bytes → Bytes → Bytes
deleted p content = flatten (map (without_word p) (tokens content))

tokens-deleted :
    (p content : Bytes) → tokens (deleted p content) ≡ map (without_word p) (tokens content)
tokens-deleted p content = tokens-flatten (without_word-IsCut p (tokens-IsCut content))

pub deleted-IsText : (p content : Bytes) → IsText content → IsText (deleted p content)
deleted-IsText p content (z, f, n) = (
  flatten-Without p (tokens content) (rw (flatten-tokens content) z),
  rw (tokens-deleted p content) (Fits-without_word p (tokens content) f),
  omega (
    arith,
    length-flatten_without p (tokens content),
    ap (λ (c : Bytes). length c) (flatten-tokens content),
  ),
)

pub deleted_twice : (p content : Bytes) → deleted p (deleted p content) ≡ deleted p content
deleted_twice p content =
    ap (λ ts. flatten (map (without_word p) ts)) (tokens-deleted p content)
    ∙ ap flatten (map-without_word_twice p (tokens content))

-- For a word that is not empty and a file with no zero byte, whose words fit the buffer and that is
-- shorter than 2^31 - 1 bytes, the deletion ends, and deleting the word from what it wrote finds no
-- occurrence and writes the same bytes.
pub delete_word_again :
    (p content : Bytes)
    → str_eq p [] ≡ false
    → Without 0 content
    → Fits (tokens content)
    → length content + 1 < 2 ^ 31
    → (out : Bytes) × (n : ℕ) × (delete_word p content ≡ some (out, n))
      × (delete_word p out ≡ some (out, 0))
delete_word_again p content ne z f n =
    let ts = tokens content in
    let (z', f', n') = deleted-IsText p content (z, f, n) in
    let second = delete_word_lem p (deleted p content) z' f' n' in
    let gone : occurrences p (tokens (deleted p content)) ≡ 0 =
      rw (tokens-deleted p content) (occurrences-without_word p ts ne) in
    (
      deleted p content,
      occurrences p ts,
      delete_word_lem p content z f n,
      rw (deleted_twice p content, gone) at second,
    )
