-- ===== src/Words/Tokens.antt =====
-- The words of a file, each with the separator behind it.
use lab_reti_di_calcolatori.Base.{
  ℕ, ◌+◌, ◌<◌, List, [], ◌∷◌, ◌++◌, ◌≡◌, refl, arith, if◌then◌else◌, All, length, length-append,
  Bool-cases, inl, inr, append_assoc,
}
use lab_reti_di_calcolatori.Base.CString.{Bytes, str_eq}
use lab_reti_di_calcolatori.Words.{is_separator, line_length}

-- A word with its separator; the last word has none.
pub record Token : Type 0 where
  pub word : Bytes
  pub sep : Bytes

abbrev pub text_of : Token → Bytes
text_of t = t.word ++ t.sep

abbrev pub flatten : List Token → Bytes
flatten [] = []
flatten (t ∷ ts) = text_of t ++ flatten ts

-- A byte in front of the first word.
abbrev pub extend : ℕ → List Token → List Token
extend c [] = record { word = c ∷ []; sep = [] } ∷ []
extend c (t ∷ ts) = record t { word = c ∷ t.word } ∷ ts

abbrev pub tokens : Bytes → List Token
tokens [] = record { word = []; sep = [] } ∷ []
tokens (c ∷ cs) =
    if is_separator c then record { word = []; sep = c ∷ [] } ∷ tokens cs else extend c (tokens cs)

-- Bytes in front of the first word.
abbrev pub prepend : Bytes → List Token → List Token
prepend w [] = record { word = w; sep = [] } ∷ []
prepend w (t ∷ ts) = record t { word = w ++ t.word } ∷ ts

-- What becomes of a token when the word `p` is deleted.
abbrev pub without_word : Bytes → Token → Token
without_word p t = if str_eq p t.word then record t { word = [] } else t

abbrev pub occurrences : Bytes → List Token → ℕ
occurrences p [] = 0
occurrences p (t ∷ ts) = (if str_eq p t.word then 1 else 0) + occurrences p ts

-- Every word fits the buffer of the server, with its terminator.
abbrev pub Fits : List Token → Type 0
Fits = All (λ t. length t.word < line_length)

pub flatten-extend : (c : ℕ) (ts : List Token) → flatten (extend c ts) ≡ c ∷ flatten ts
flatten-extend c [] = refl
flatten-extend c (t ∷ ts) = refl

-- The tokens are the text, cut up.
pub flatten-tokens : (cs : Bytes) → flatten (tokens cs) ≡ cs
flatten-tokens [] = refl
flatten-tokens (c ∷ cs) = ground (arith, flatten-tokens cs, flatten-extend c (tokens cs))

pub prepend-extend :
    (w : Bytes) (c : ℕ) (ts : List Token) → prepend w (extend c ts) ≡ prepend (w ++ c ∷ []) ts
prepend-extend w c [] = refl
prepend-extend w c (t ∷ ts) = rw (append_assoc w (c ∷ []) t.word)

prepend_nil-extend : (c : ℕ) (ts : List Token) → prepend [] (extend c ts) ≡ extend c ts
prepend_nil-extend c [] = refl
prepend_nil-extend c (t ∷ ts) = refl

pub prepend_nil-tokens : (cs : Bytes) → prepend [] (tokens cs) ≡ tokens cs
prepend_nil-tokens [] = refl
prepend_nil-tokens (c ∷ cs) = elim (Bool-cases (is_separator c)) [
  | inl sep ↦ rw sep
  | inr letter ↦ rw letter (prepend_nil-extend c (tokens cs))
]

-- The buffer is a part of the first word.
pub Fits-prepend : (w : Bytes) (ts : List Token) → Fits (prepend w ts) → length w < line_length
Fits-prepend w [] f = f.0
Fits-prepend w (t ∷ ts) f = omega (arith, f.0, length-append w t.word)
