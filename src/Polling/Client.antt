-- ===== src/Polling/Client.antt =====
-- The client esercitazione_3/es2/clientTCPselect.c over a session: its loops over a file, by what each `select` and the
-- `recv` behind it give, in the dialogue that it shares with esercitazione_3/es2/clientTCP.c.
use lab_reti_di_calcolatori.Base.{
  false, Option, none, some, List, [], ◌∷◌, ◌++◌, ◌==◌, if◌then◌else◌, ◌>>=◌,
}
use lab_reti_di_calcolatori.Base.Int.{ℤ}
use lab_reti_di_calcolatori.Base.CString.{Bytes, read_string}
use lab_reti_di_calcolatori.Base.Array.{stored}
use lab_reti_di_calcolatori.LineClient.{Files, Surroundings, Desk, Sent, feed_all, opened}

-- A `select` that has timed out, or one that was ready and the chunk that `recv` has given.
abbrev pub Poll : Type 0
Poll = Option Bytes

-- The `select` behind a newline, the `recv` into the front of the array, the `printf` of the array as a string, which is
-- undefined without a zero byte in it, and the rest of the loop. With no more polls it times out.
abbrev pub poll_line :
    Bytes → List Poll → (Bytes → List Poll → Option (Sent Poll)) → Option (Sent Poll)
poll_line buff [] next = next buff []
poll_line buff (none ∷ polls) next = next buff polls
poll_line buff (some chunk ∷ polls) next = do
  line ← read_string (stored chunk buff)
  rest ← next (stored chunk buff) polls
  some (record rest { written = chunk ++ rest.written })

-- The loop over the bytes of the file.
unfoldable pub poll_lines : Bytes → Bytes → List Poll → Option (Sent Poll)
poll_lines [] buff polls = some (record { written = []; later = polls; buff = buff; stuck = false })
poll_lines (c ∷ content) buff polls =
    let newline = poll_line buff polls (poll_lines content) in
    let other = poll_lines content buff polls in if c == b'\n' then newline else other

-- The loop that reads the rest, up to a `select` that times out.
unfoldable pub poll_rest : Bytes → List Poll → Option (Sent Poll)
poll_rest buff [] = some (record { written = []; later = []; buff = buff; stuck = false })
poll_rest buff (none ∷ polls) =
    some (record { written = []; later = polls; buff = buff; stuck = false })
poll_rest buff (some chunk ∷ polls) = do
  line ← read_string (stored chunk buff)
  rest ← poll_rest (stored chunk buff) polls
  some (record rest { written = chunk ++ rest.written })

-- Both loops; the number of the line is the server's affair.
unfoldable pub poll_file : ℤ → Bytes → Bytes → List Poll → Option (Sent Poll)
poll_file riga content buff polls = do
  first ← poll_lines content buff polls
  rest ← poll_rest first.buff first.later
  some (record rest { written = first.written ++ rest.written })

-- The client over the words of its input, from its first prompt.
unfoldable pub poll_session :
    Surroundings → Bytes → Bytes → Files → List Poll → List Bytes → Option (Desk Poll)
poll_session env array buff files polls words =
    feed_all poll_file env words (opened array buff files polls)
