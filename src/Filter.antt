-- ===== src/Filter.antt =====
-- The filter of exercise 0, esercitazione_0/consumatore.c: it copies its input without the
-- characters of its first argument. The array of the characters is on the stack and is not cleared:
-- what it holds before is a parameter.
pub mod Cleared
pub mod Garbage
mod Tests
use lab_reti_di_calcolatori.Base.{
  ℕ, suc, ◌+◌, Bool, true, false, Option, none, some, List, [], ◌∷◌, ◌==◌, if◌then◌else◌, ◌>>=◌,
  length, store,
}
use lab_reti_di_calcolatori.Base.CString.{Bytes}

-- `strchr(array, c) != NULL`; with no zero in the array the search may run out of it.
unfoldable pub strchr : Bytes → ℕ → Option Bool
strchr [] c = none
strchr (x ∷ xs) c =
    let rest = strchr xs c in
    let behind = if x == 0 then some false else rest in if x == c then some true else behind

-- The loop over the characters of the filter from the second on, which leaves out those that are
-- in the array already: `i`, and the array.
unfoldable pub skim : Bytes → ℕ → ℕ → Bytes → Option (ℕ × Bytes)
skim [] i j t_filter = some (i, t_filter)
skim (c ∷ cs) i j t_filter = do
  found ← strchr t_filter c
  let kept = skim cs (i + 1) j t_filter
  let added = store t_filter j c >>= skim cs (i + 1) (j + 1)
  if found then kept else added

-- The array behind the loop and the terminator.
unfoldable pub skimmed : Bytes → Bytes → Option Bytes
skimmed [] stack = do t ← store stack 0 0; store t 1 0
skimmed (c ∷ cs) stack = do t ← store stack 0 c; (i, t') ← skim cs 1 1 t; store t' i 0

-- The main loop over the characters of the input: what is written.
unfoldable pub copy : Bytes → Bytes → Option Bytes
copy t_filter [] = some []
copy t_filter (c ∷ input) = do
  found ← strchr t_filter c
  rest ← copy t_filter input
  some (if found then rest else c ∷ rest)

unfoldable pub consumatore : Bytes → Bytes → Bytes → Option Bytes
consumatore stack filter input = do t_filter ← skimmed filter stack; copy t_filter input
