-- ===== src/Base/Stream.antt =====
-- What `recv` gives from a TCP stream, and an `int` as the bytes that go over it.
use Prim.Native.Nat.{ℕ, suc, ◌+◌, ◌-◌, ◌*◌, ◌/◌, ◌%◌, ◌^◌, ◌≤◌, ◌<◌, min, max}
use mathlib.Core.Path.{◌≡◌, refl, ap, ◌∙◌}
use mathlib.Core.Option.{Option, none, some}
use mathlib.Core.List.{List, [], ◌∷◌, ◌++◌, map, append-nil, append_assoc, map-append}
use native.Mathlib.Omega.{arith}
use lab_reti_di_calcolatori.Base.Tests.{ltb, if◌then◌else◌}
use lab_reti_di_calcolatori.Base.Lists.{length, drop, drop_all}
use lab_reti_di_calcolatori.Base.Int.{ℤ, pos, negsuc, IsInt}
use lab_reti_di_calcolatori.Base.CString.{Bytes}

-- What `recv(conn_sd, &tmp, 1, 0)` can return: 1 with a byte, 0 at the end of the stream, or -1.
pub data Recv : Type 0 where
  byte : ℕ → Recv
  eof : Recv
  failed : Recv

-- The bytes of an `int` in memory, the lowest first.
abbrev pub word_bytes : ℕ → Bytes
word_bytes u = u % 256 ∷ u / 256 % 256 ∷ u / 65536 % 256 ∷ u / 16777216 % 256 ∷ []

abbrev pub int_array : ℤ → Bytes
int_array (pos n) = word_bytes n
int_array (negsuc n) = word_bytes (2 ^ 32 - 1 - n)

-- The `int` whose memory these bytes are.
abbrev pub signed : ℕ → ℤ
signed u = if ltb u (2 ^ 31) then pos u else negsuc (2 ^ 32 - 1 - u)

abbrev pub int_value : Bytes → ℤ
int_value (a ∷ b ∷ c ∷ d ∷ []) = signed (a + 256 * b + 65536 * c + 16777216 * d)
int_value _ = pos 0

-- At most `n` of the bytes that come next, and what comes behind them.
unfoldable pub next_bytes : ℕ → List Recv → Bytes × List Recv
next_bytes (suc n) (byte c ∷ rs) = let r = next_bytes n rs in (c ∷ r.0, r.1)
next_bytes _ rs = ([], rs)

-- `recv` into an array where `n` bytes have arrived: the array then, and what comes next. `none` is
-- a call that waits.
unfoldable pub recv_into : ℕ → Bytes → List Recv → Option (Bytes × List Recv)
recv_into n array [] = none
recv_into n array (byte c ∷ rs) =
    let r = next_bytes (min (max 1 n) (length array)) (byte c ∷ rs) in
    some (r.0 ++ drop (length r.0) array, r.1)
recv_into n array (_ ∷ rs) = some (array, rs)

word_value : (u : ℕ) → u < 2 ^ 32 → int_value (word_bytes u) ≡ signed u
word_value u h = ap signed (omega arith)

pub int_value-int_array : (z : ℤ) → IsInt z → int_value (int_array z) ≡ z
int_value-int_array (pos n) h = word_value n (omega arith) ∙ ground arith
int_value-int_array (negsuc n) h = word_value (2 ^ 32 - 1 - n) (omega arith) ∙ ground arith

next_bytes-map :
    (xs : Bytes) (rs : List Recv) → next_bytes (length xs) (map byte xs ++ rs) ≡ (xs, rs)
unfolding next_bytes
next_bytes-map [] rs = refl
next_bytes-map (x ∷ xs) rs = rw (next_bytes-map xs rs)

pub recv_into-map :
    (n : ℕ) (array xs : Bytes) (rs : List Recv)
    → length xs ≡ length array
    → 0 < length array
    → length array ≤ n
    → recv_into n array (map byte xs ++ rs) ≡ some (xs, rs)
unfolding recv_into
recv_into-map n array [] rs same some_room enough = absurd (omega arith)
recv_into-map n array (x ∷ xs) rs same some_room enough =
    let room : min (max 1 n) (length array) ≡ length (x ∷ xs) = omega arith in
    let gone : drop (length (x ∷ xs)) array ≡ [] = drop_all (length (x ∷ xs)) array (omega arith) in
    rw (room, next_bytes-map (x ∷ xs) rs)
      (ap (λ ys. some (x ∷ ys, rs)) (ap (λ ys. xs ++ ys) gone ∙ append-nil xs))

pub bytes-append :
    (xs ys : Bytes) (rs : List Recv)
    → map byte (xs ++ ys) ++ rs ≡ map byte xs ++ (map byte ys ++ rs)
bytes-append xs ys rs = rw (map-append byte xs ys) (append_assoc (map byte xs) (map byte ys) rs)

pub length-int_array : (z : ℤ) → length (int_array z) ≡ 4
length-int_array (pos n) = refl
length-int_array (negsuc n) = refl
