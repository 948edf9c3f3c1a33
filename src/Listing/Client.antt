-- ===== src/Listing/Client.antt =====
-- The client of the directory service, esercitazione_4/src/clientTCP.c: what it shows for one name, once
-- that has been sent, and the bytes that the service writes to it.
use lab_reti_di_calcolatori.Base.{
  ℕ, zero, suc, ◌+◌, not, Bool, true, false, Option, none, some, List, [], ◌∷◌, ◌++◌, if◌then◌else◌,
  ◌>>=◌, length,
}
use lab_reti_di_calcolatori.Base.Int.{pos, ltb_ℤ}
use lab_reti_di_calcolatori.Base.CString.{Bytes, read_string}
use lab_reti_di_calcolatori.Base.Stream.{Recv, failed, int_array, int_value, recv_into}
use lab_reti_di_calcolatori.Listing.{Message, status, name}

-- The bytes of a message. `behind` is what the array `d_name` holds behind the terminator of a name.
abbrev pub message_bytes : (Bytes → Bytes) → Message → Bytes
message_bytes behind (status z) = int_array z
message_bytes behind (name d_name) = d_name ++ 0 ∷ behind d_name

abbrev pub messages_bytes : (Bytes → Bytes) → List Message → Bytes
messages_bytes behind [] = []
messages_bytes behind (m ∷ ms) = message_bytes behind m ++ messages_bytes behind ms

-- The names that are printed, and whether the client ends up waiting in `recv`.
pub record Printed : Type 0 where
  pub names : List Bytes
  pub waits : Bool

-- The loop that prints the names, by the calls of `recv` that may still come, of which call `k` finds
-- `arrived k` bytes. Where nothing comes, `select` times out; a `recv` that has failed is called again
-- without it.
unfoldable pub print_names : ℕ → (ℕ → ℕ) → ℕ → Bytes → List Recv → Option Printed
print_names zero arrived k buff rs = none
print_names (suc rounds) arrived k buff [] = some (record { names = []; waits = false })
print_names (suc rounds) arrived k buff (failed ∷ []) = some (record { names = []; waits = true })
print_names (suc rounds) arrived k buff (failed ∷ r ∷ rs) =
    print_names rounds arrived (k + 1) buff (r ∷ rs)
print_names (suc rounds) arrived k buff (r ∷ rs) = do
  (received, rest) ← recv_into (arrived k) buff (r ∷ rs)
  nome ← read_string received
  later ← print_names rounds arrived (k + 1) received rest
  some (record later { names = nome ∷ later.names })

-- The memory of `res`, what is printed and what is left in the stream.
pub record Shown : Type 0 where
  pub res : Bytes
  pub printed : Printed
  pub left : List Recv

-- The client waits for `res`, its `recv` has failed, or it has gone on.
pub data Asked : Type 0 where
  blocked : Asked
  skipped : List Recv → Asked
  shown : Shown → Asked

-- The body of the main loop behind `sendto`. `buff` is what the array of the names holds at first.
unfoldable pub ask_directory : (ℕ → ℕ) → Bytes → Bytes → List Recv → Option Asked
ask_directory arrived res buff [] = some blocked
ask_directory arrived res buff (failed ∷ rs) = some (skipped rs)
ask_directory arrived res buff (r ∷ rs) = do
  (received, rest) ← recv_into (arrived 0) res (r ∷ rs)
  let listed = do
    printed ← print_names (length rest + 1) arrived 1 buff rest
    some (shown (record { res = received; printed = printed; left = [] }))
  let missing : Asked =
      shown (record { res = received; printed = record { names = []; waits = false }; left = rest })
  if not (ltb_ℤ (int_value received) (pos 0)) then listed else some missing
