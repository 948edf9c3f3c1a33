-- ===== src/Longest/Words.antt =====
-- The answer against the words of the file that a separator ends.
use native.Mathlib.Nat.{zero-add, add-zero}
use lab_reti_di_calcolatori.Base.{
  ℕ, suc, ◌+◌, ◌≤◌, ◌<◌, ◌^◌, false, Option, some, List, [], ◌∷◌, ◌++◌, map, ◌≡◌, ◌⊎◌, refl, ap,
  ◌∙◌, arith, if◌then◌else◌, All, length, length-append, Bool-cases, inl, inr,
}
use lab_reti_di_calcolatori.Base.Int.{ℤ, pos, ◌≤ℤ◌, ltb_ℤ, count_up_lem}
use lab_reti_di_calcolatori.Base.CString.{Bytes, read_string}
use lab_reti_di_calcolatori.Longest.{Server, is_separator, read_words, serve, receive_name}

-- A byte in front of the first word; a word that no separator ends is none.
abbrev extend : ℕ → List Bytes → List Bytes
extend c [] = []
extend c (w ∷ ws) = (c ∷ w) ∷ ws

-- The words that a separator ends, in order.
abbrev pub ended : Bytes → List Bytes
ended [] = []
ended (c ∷ cs) = if is_separator c then [] ∷ ended cs else extend c (ended cs)

-- The lengths of the words, the first longer by `n`.
abbrev pub lengths : ℕ → List Bytes → List ℕ
lengths n [] = []
lengths n (w ∷ ws) = (n + length w) ∷ map length ws

abbrev pub greatest : ℤ → List ℕ → ℤ
greatest r [] = r
greatest r (n ∷ ns) = greatest (if ltb_ℤ r (pos n) then pos n else r) ns

lengths-extend : (c n : ℕ) (ws : List Bytes) → lengths n (extend c ws) ≡ lengths (n + 1) ws
lengths-extend c n [] = refl
lengths-extend c n (w ∷ ws) = let e : n + suc (length w) ≡ n + 1 + length w = omega arith in rw e

pub lengths_zero : (ws : List Bytes) → lengths 0 ws ≡ map length ws
lengths_zero [] = refl
lengths_zero (w ∷ ws) = rw zero-add

pub read_words-greatest :
    (cs : Bytes) (r : ℤ) (tmp : ℕ)
    → tmp + length cs < 2 ^ 31
    → read_words cs r tmp ≡ some (greatest r (lengths tmp (ended cs)))
unfolding read_words
read_words-greatest [] r tmp h = refl
read_words-greatest (c ∷ cs) r tmp h = elim (Bool-cases (is_separator c)) [
  | inl sep ↦
      rw (sep, add-zero tmp)
        (rw (← lengths_zero (ended cs)) (read_words-greatest cs _ 0 (omega arith)))
  | inr letter ↦
      rw (letter, lengths-extend c tmp (ended cs))
        (rw (count_up_lem tmp (omega arith)) (read_words-greatest cs r (tmp + 1) (omega arith)))
]

-- Some word of the list has this length.
abbrev pub HasLength : ℕ → List Bytes → Type 0
HasLength n [] = ⊥
HasLength n (w ∷ ws) = (length w ≡ n) ⊎ HasLength n ws

longer : ℤ → ℕ → ℤ
longer r n = if ltb_ℤ r (pos n) then pos n else r

longer_upper : (r : ℤ) (n : ℕ) → (r ≤ℤ longer r n) × (pos n ≤ℤ longer r n)
unfolding longer
longer_upper r n = ground arith

longer_cases : (r : ℤ) (n : ℕ) → (longer r n ≡ pos n) ⊎ (longer r n ≡ r)
unfolding longer
longer_cases r n = ground arith

≤ℤ_trans : (a b c : ℤ) → a ≤ℤ b → b ≤ℤ c → a ≤ℤ c
≤ℤ_trans a b c h k = omega arith

pub greatest_upper :
    (ws : List Bytes) (r : ℤ)
    → (r ≤ℤ greatest r (map length ws)) × All (λ w. pos (length w) ≤ℤ greatest r (map length ws)) ws
unfolding longer
greatest_upper [] r = (omega arith, tt)
greatest_upper (w ∷ ws) r =
    let step = longer_upper r (length w) in
    let rest = greatest_upper ws (longer r (length w)) in
    (
      ≤ℤ_trans r _ _ step.0 rest.0,
      (≤ℤ_trans (pos (length w)) (longer r (length w)) _ step.1 rest.0, rest.1),
    )

greatest_reached :
    (ws : List Bytes) (r : ℤ)
    → (greatest r (map length ws) ≡ r)
      ⊎ ((n : ℕ) × (greatest r (map length ws) ≡ pos n) × HasLength n ws)
unfolding longer
greatest_reached [] r = inl refl
greatest_reached (w ∷ ws) r = elim (greatest_reached ws (longer r (length w))) [
  | inr (n, e, has) ↦ inr (n, e, inr has)
  | inl e ↦ elim (longer_cases r (length w)) [
    | inl new ↦ inr (length w, e ∙ new, inl refl)
    | inr old ↦ inl (e ∙ old)
  ]
]

-- A file that can be opened is answered with a number that no ended word of it is longer than and
-- that is not below the last answer; it is the last answer or the length of one of the words. The
-- file is smaller than 2^31 bytes and the array holds a terminated name.
pub serve_longest :
    (open_file : ℕ → Bytes → Option Bytes) (datagram name content : Bytes) (s : Server)
    → read_string (receive_name datagram s.file_name) ≡ some name
    → open_file s.descriptors name ≡ some content
    → length content < 2 ^ 31
    → (s' : Server) × (serve open_file datagram s ≡ some s')
      × (s.result ≤ℤ s'.result)
      × All (λ w. pos (length w) ≤ℤ s'.result) (ended content)
      × ((s'.result ≡ s.result) ⊎ ((n : ℕ) × (s'.result ≡ pos n) × HasLength n (ended content)))
unfolding serve
serve_longest open_file datagram name content s named opened small =
    let answer = greatest s.result (map length (ended content)) in
    let bound = greatest_upper (ended content) s.result in
    (
      record {
        file_name = receive_name datagram s.file_name;
        result = answer;
        descriptors = s.descriptors + 1;
      },
      rw (named, opened)
          (rw (read_words-greatest content s.result 0 (omega arith), lengths_zero (ended content))
            refl),
      bound.0,
      bound.1,
      greatest_reached (ended content) s.result,
    )

greatest_shorter :
    (ws : List Bytes) (n : ℕ)
    → All (λ w. length w ≤ n) ws
    → greatest (pos n) (map length ws) ≡ pos n
greatest_shorter [] n h = refl
greatest_shorter (w ∷ ws) n (h, hs) =
    let same : (if ltb_ℤ (pos n) (pos (length w)) then pos (length w) else pos n) ≡ pos n =
      ground arith in
    ap (λ r. greatest r (map length ws)) same ∙ greatest_shorter ws n hs

-- After the answer `n`, a file that can be opened, is smaller than 2^31 bytes and has no ended word
-- longer than `n` is answered with `n` again, whatever words it has. The array holds a terminated
-- name.
pub serve_stale :
    (open_file : ℕ → Bytes → Option Bytes) (datagram name content : Bytes) (s : Server) (n : ℕ)
    → s.result ≡ pos n
    → read_string (receive_name datagram s.file_name) ≡ some name
    → open_file s.descriptors name ≡ some content
    → length content < 2 ^ 31
    → All (λ w. length w ≤ n) (ended content)
    → serve open_file datagram s
      ≡ some (record {
        file_name = receive_name datagram s.file_name;
        result = pos n;
        descriptors = s.descriptors + 1;
      })
unfolding serve
serve_stale open_file datagram name content s n last named opened small short =
    rw (named, opened)
      (rw
        (
          last,
          read_words-greatest content (pos n) 0 (omega arith),
          lengths_zero (ended content),
          greatest_shorter (ended content) n short,
        )
        refl)

ended_unterminated :
    (cs w : Bytes) → All (λ c. is_separator c ≡ false) w → ended (cs ++ w) ≡ ended cs
ended_unterminated [] [] h = refl
ended_unterminated [] (c ∷ w) (letter, h) = rw letter (ap (extend c) (ended_unterminated [] w h))
ended_unterminated (c ∷ cs) w h =
    let same = ended_unterminated cs w h in
    elim (Bool-cases (is_separator c)) [
      | inl sep ↦ rw sep (ap (◌∷◌ []) same)
      | inr letter ↦ rw letter (ap (extend c) same)
    ]

-- What follows the last space or newline of a file does not count: the file without it has the same
-- answer. The file is smaller than 2^31 bytes and the array holds a terminated name.
pub serve_unterminated :
    (content word datagram name : Bytes) (s : Server)
    → read_string (receive_name datagram s.file_name) ≡ some name
    → length content + length word < 2 ^ 31
    → All (λ c. is_separator c ≡ false) word
    → serve (λ d path. some (content ++ word)) datagram s
      ≡ serve (λ d path. some content) datagram s
unfolding serve
serve_unterminated content word datagram name s named small letters =
    let sum = length-append content word in
    rw named (
      rw
        (
          read_words-greatest (content ++ word) s.result 0 (omega arith),
          ended_unterminated content word letters,
          read_words-greatest content s.result 0 (omega arith),
        )
        refl)
