-- ===== src/Base/CString.antt =====
-- Bytes and C strings.
use Prim.Native.Nat.{ℕ, ◌+◌, ◌<◌}
use Prim.Native.Char.{code}
use Prim.Native.String.{String}
use mathlib.Core.List.{List, [], ◌∷◌, ◌++◌}
use mathlib.Core.Path.{◌≡◌, refl}
use mathlib.Core.Logic.{◌↔◌}
use mathlib.Core.Bool.{Bool, true, false, ◌&&◌}
use native.Mathlib.Omega.{arith}
use mathlib.Core.Option
use mathlib.Core.Option.{Option, none, some}
use lab_reti_di_calcolatori.Base.Tests.{◌==◌, ltb, lt→ltb, if◌then◌else◌}
use lab_reti_di_calcolatori.Base.Lists.{All, length, drop, length-append, length-drop}

abbrev pub Bytes : Type 0
Bytes = List ℕ

-- The bytes of an ASCII text.
abbrev pub codes : String → Bytes
codes String.[] = []
codes (String.◌∷◌ c s) = code c ∷ codes s

-- `strcmp(a, b) == 0`, on the contents of two strings.
unfoldable pub str_eq : Bytes → Bytes → Bool
str_eq [] [] = true
str_eq (x ∷ xs) (y ∷ ys) = x == y && str_eq xs ys
str_eq _ _ = false

pub str_eq_iff : (a b : Bytes) → (str_eq a b ≡ true) ↔ (a ≡ b)
unfolding str_eq
str_eq_iff (x ∷ a) (y ∷ b) = ground (arith, str_eq_iff a b)
str_eq_iff _ _ = ground arith

pub str_eq_refl : (a : Bytes) → str_eq a a ≡ true
str_eq_refl a = (str_eq_iff a a).1 refl

-- `scanf("%s", array)`, which faults past an array of this size.
unfoldable pub scan_word : ℕ → Bytes → Option Bytes
scan_word size word = if ltb (length word) size then some word else none

-- An array behind `scanf`: the word, its terminator, and what the array held behind them.
abbrev pub named : Bytes → Bytes → Bytes
named word array = word ++ 0 ∷ drop (length word + 1) array

-- The string that starts an array: the bytes before the first zero. With no zero in the array the
-- read runs out of it.
unfoldable pub read_string : Bytes → Option Bytes
read_string [] = none
read_string (c ∷ cs) = if c == 0 then some [] else Option.map (◌∷◌ c) (read_string cs)

unfoldable pub skip : ℕ → Bytes → Bytes
skip d [] = []
skip d (c ∷ cs) = if c == d then skip d cs else c ∷ cs

unfoldable pub token : ℕ → Bytes → Bytes × Bytes
token d [] = ([], [])
token d (c ∷ cs) = let rest = token d cs in if c == d then ([], cs) else (c ∷ rest.0, rest.1)

-- `strtok` with one delimiter: the token and the text that the next call goes on with, or `NULL`.
unfoldable pub strtok : ℕ → Bytes → Option (Bytes × Bytes)
unfolding skip token
strtok d s = elim (skip d s) [ [] ↦ none | c ∷ cs ↦ some (token d (c ∷ cs)) ]

-- No byte of the text is `d`.
abbrev pub Without : ℕ → Bytes → Type 0
Without d = All (λ c. (c == d) ≡ false)

-- `strcat` onto a string that stands in an array of `size` bytes; `strcpy` is `strcat` onto the empty
-- string.
unfoldable pub strcat : ℕ → Bytes → Bytes → Option Bytes
strcat size dst src = if ltb (length dst + length src) size then some (dst ++ src) else none

pub strcat_lem :
    (size : ℕ) (a b : Bytes) → length a + length b < size → strcat size a b ≡ some (a ++ b)
unfolding strcat
strcat_lem size a b h = rw (lt→ltb _ _ h) refl

pub read_string-terminated : (s rest : Bytes) → Without 0 s → read_string (s ++ 0 ∷ rest) ≡ some s
unfolding read_string
read_string-terminated [] rest h = refl
read_string-terminated (c ∷ cs) rest h = rw (h.0, read_string-terminated cs rest h.1)

pub length-named :
    (word array : Bytes) → length word < length array → length (named word array) ≡ length array
length-named word array h = omega (
  arith,
  length-append word (0 ∷ drop (length word + 1) array),
  length-drop (length word + 1) array,
)
