-- ===== src/Listing/Session.antt =====
-- A session of esercitazione_4/src/clientTCP.c: its main loop over the names that the user enters.
use lab_reti_di_calcolatori.Base.{ℕ, Bool, Option, some, List, [], ◌∷◌, ◌++◌, if◌then◌else◌, ◌>>=◌}
use lab_reti_di_calcolatori.Base.Int.{ℤ}
use lab_reti_di_calcolatori.Base.CString.{Bytes, scan_word, named}
use lab_reti_di_calcolatori.Base.Stream.{Recv, int_value}
use lab_reti_di_calcolatori.Listing.Client.{blocked, skipped, shown, ask_directory}

-- The size of `nomeFile`.
abbrev pub nome_file_size : ℕ
nome_file_size = 256

-- A word of the input, and what becomes of its request: whether `sendto` succeeds, how many bytes have arrived at each
-- call of `recv`, what the array of the names holds at first, and what comes over the connection.
pub record Visit : Type 0 where
  pub word : Bytes
  pub sends : Bool
  pub arrived : ℕ → ℕ
  pub buff : Bytes
  pub coming : List Recv

-- The end of the input, an exit with 4, or a `recv` that waits for ever.
pub data Finish : Type 0 where
  finished : Finish
  gave_up : Finish
  stuck : Finish

-- The arrays that have been sent, the numbers and names that have been printed, and the end.
pub record Tour : Type 0 where
  pub asked : List Bytes
  pub told : List (ℤ × List Bytes)
  pub finish : Finish

abbrev pub over : Finish → Tour
over finish = record { asked = []; told = []; finish = finish }

-- The main loop. `left` has come for the requests before and has not been received.
unfoldable pub browse : List Visit → Bytes → Bytes → List Recv → Option Tour
browse [] nome_file res left = some (over finished)
browse (v ∷ visits) nome_file res left = do
  word ← scan_word nome_file_size v.word
  let array = named word nome_file
  let sent = λ (t : Tour). record t { asked = array ∷ t.asked }
  answer ← ask_directory v.arrived res v.buff (left ++ v.coming)
  let next : Option Tour = elim answer [
    | blocked ↦ some (sent (over stuck))
    | skipped rest ↦ do t ← browse visits array res rest; some (sent t)
    | shown s ↦
        let printed : ℤ × List Bytes = (int_value s.res, s.printed.names) in
        let goes_on = do
          t ← browse visits array s.res s.left
          some (sent (record t { told = printed ∷ t.told }))
        in if s.printed.waits
          then some (sent (record (over stuck) { told = printed ∷ [] }))
          else goes_on
  ]
  if v.sends then next else some (over gave_up)
