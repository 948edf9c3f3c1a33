-- ===== src/Polling/Edits.antt =====
-- A session of esercitazione_3/es2/clientTCPselect.c at esercitazione_3/es2/serverTCP.c by the files of the client.
use lab_reti_di_calcolatori.Base.{
  ℕ, ◌+◌, ◌<◌, true, false, Option, none, some, ◌>>=◌, List, [], ◌∷◌, ◌++◌, map, ◌==◌, ◌≡◌, refl,
  ◌∙◌, arith, length, Bool-cases, inl, inr, All,
}
use lab_reti_di_calcolatori.Base.Int.{ℤ}
use lab_reti_di_calcolatori.Base.CString.{Bytes, read_string}
use lab_reti_di_calcolatori.Base.Array.{Closed, Closed-read_string, Closed-stored, stored}
use lab_reti_di_calcolatori.Lines.{byte, eof}
use lab_reti_di_calcolatori.Lines.Text.{extend, lines, join}
use lab_reti_di_calcolatori.Lines.Connection.{Ask, Vars, serve_connection}
use lab_reti_di_calcolatori.Lines.Header.{HasRoom, WholeHeaders}
use lab_reti_di_calcolatori.Lines.Requests.{requests_bytes, answers, serve_connection-answers}
use lab_reti_di_calcolatori.LineClient.{Files, Surroundings, Desk, Sent, opened}
use lab_reti_di_calcolatori.LineClient.Texts.{IsShort, without, without-IsShort}
use lab_reti_di_calcolatori.LineClient.Edits.{
  Edit, edited, asks, typed, IsEdit, AllFiles, asks-IsSound, All-IsAsk,
}
use lab_reti_di_calcolatori.LineClient.Dialogue.{IsCalm, Supplies, edited_from}
use lab_reti_di_calcolatori.Polling.Client.{
  Poll, poll_line, poll_lines, poll_rest, poll_file, poll_session,
}

-- What the polls have given.
abbrev pub delivered : List Poll → Bytes
delivered [] = []
delivered (none ∷ polls) = delivered polls
delivered (some chunk ∷ polls) = chunk ++ delivered polls

-- The polls of a request: those behind the newlines of the file, and the chunks that come behind them.
abbrev pub Block : Type 0
Block = List Poll × List Bytes

-- All of them, and the one that times out.
abbrev pub polls_of : List Block → List Poll
polls_of [] = []
polls_of ((during, after) ∷ blocks) = during ++ (map some after ++ none ∷ polls_of blocks)

-- Every chunk has fewer bytes than the client's array.
abbrev pub ArePieces : List Poll → Type 0
ArePieces [] = Unit
ArePieces (none ∷ polls) = ArePieces polls
ArePieces (some chunk ∷ polls) = (length chunk < 256) × ArePieces polls

-- There is a poll for each newline, the chunks are the bytes that the server sends for the request, and each has
-- fewer bytes than the client's array.
abbrev pub IsBlock : Ask → Block → Type 0
IsBlock q (during, after) =
    (length during + 1 ≡ length (lines q.content))
    × (delivered during ++ join after ≡ without q.riga q.content)
    × ArePieces during
    × All (λ chunk. length chunk < 256) after

abbrev pub AreBlocks : List Ask → List Block → Type 0
AreBlocks [] [] = Unit
AreBlocks [] (b ∷ blocks) = ⊥
AreBlocks (q ∷ qs) [] = ⊥
AreBlocks (q ∷ qs) (b ∷ blocks) = IsBlock q b × AreBlocks qs blocks

length-extend : (c : ℕ) (ls : List Bytes) → 0 < length ls → length (extend c ls) ≡ length ls
length-extend c [] h = absurd (omega arith)
length-extend c (l ∷ ls) h = refl

lines_some : (content : Bytes) → 0 < length (lines content)
lines_some [] = omega arith
lines_some (c ∷ content) = elim (Bool-cases (c == b'\n')) [
  | inl newline ↦ rw newline (omega arith)
  | inr other ↦
      rw (other, length-extend c (lines content) (lines_some content)) (lines_some content)
]

-- The loop leaves this text, these polls and an array whose last byte is zero.
abbrev Leaves : Option (Sent Poll) → Bytes → List Poll → Type 0
Leaves o text more =
    (array : Bytes) × (o
      ≡ some (record { written = text; later = more; buff = array; stuck = false }))
    × Closed array

-- A chunk is stored and printed, and the rest of the loop goes on.
piece-Leaves :
    (chunk buff text : Bytes) (more : List Poll) (next : Bytes → Option (Sent Poll))
    → length chunk < 256
    → Closed buff
    → ((b : Bytes) → Closed b → Leaves (next b) text more)
    → Leaves
        (do
          line ← read_string (stored chunk buff)
          rest ← next (stored chunk buff)
          some (record rest { written = chunk ++ rest.written }))
        (chunk ++ text)
        more
piece-Leaves chunk buff text more next few closed h =
    let closed' = Closed-stored chunk buff few closed in
    let (line, reads) = Closed-read_string (stored chunk buff) closed' in
    let (array, run, still) = h (stored chunk buff) closed' in
    (array, rw reads (rw run refl), still)

-- Where the rest of the loop gives what the rest of the polls have given.
poll_line-delivered :
    (content : Bytes) (during more : List Poll) (buff : Bytes)
    → length during ≡ length (lines content)
    → ArePieces during
    → Closed buff
    → ((rest : List Poll) (b : Bytes)
        → length rest + 1 ≡ length (lines content)
        → ArePieces rest
        → Closed b
        → Leaves (poll_lines content b (rest ++ more)) (delivered rest) more)
    → Leaves (poll_line buff (during ++ more) (poll_lines content)) (delivered during) more
poll_line-delivered content [] more buff h pieces closed next =
    absurd (omega (arith, lines_some content))
poll_line-delivered content (none ∷ during) more buff h pieces closed next =
    next during buff (omega arith) pieces closed
poll_line-delivered content (some chunk ∷ during) more buff h (few, pieces) closed next =
    piece-Leaves chunk buff (delivered during) more (λ b. poll_lines content b (during ++ more)) few
      closed (λ b. next during b (omega arith) pieces)

poll_lines-delivered :
    (content : Bytes) (during more : List Poll) (buff : Bytes)
    → length during + 1 ≡ length (lines content)
    → ArePieces during
    → Closed buff
    → Leaves (poll_lines content buff (during ++ more)) (delivered during) more
unfolding poll_lines
poll_lines-delivered [] [] more buff h pieces closed = (buff, refl, closed)
poll_lines-delivered [] (p ∷ during) more buff h pieces closed = absurd (omega arith)
poll_lines-delivered (c ∷ content) during more buff h pieces closed =
    elim (Bool-cases (c == b'\n')) [
      | inl newline ↦ rw newline (
          poll_line-delivered content during more buff (let h' = rw newline at h in omega arith)
            pieces closed (λ rest b. poll_lines-delivered content rest more b))
      | inr other ↦ rw other (
          poll_lines-delivered content during more buff
            (rw other at h ∙ length-extend c (lines content) (lines_some content)) pieces closed)
    ]

poll_rest-join :
    (after : List Bytes) (more : List Poll) (buff : Bytes)
    → All (λ chunk. length chunk < 256) after
    → Closed buff
    → Leaves (poll_rest buff (map some after ++ none ∷ more)) (join after) more
unfolding poll_rest
poll_rest-join [] more buff pieces closed = (buff, refl, closed)
poll_rest-join (chunk ∷ after) more buff (few, pieces) closed =
    piece-Leaves chunk buff (join after) more (λ b. poll_rest b (map some after ++ none ∷ more)) few
      closed (λ b. poll_rest-join after more b pieces)

polls_of-Supplies :
    (qs : List Ask) (blocks : List Block)
    → AreBlocks qs blocks
    → Supplies poll_file (polls_of blocks) qs
unfolding poll_file
polls_of-Supplies [] [] h = refl
polls_of-Supplies [] (b ∷ blocks) h = absurd h
polls_of-Supplies (q ∷ qs) [] h = absurd h
polls_of-Supplies (q ∷ qs) ((during, after) ∷ blocks) ((enough, all, pieces, behind), h) = (
  polls_of blocks,
  (λ b closed.
      let (array, run, still) =
        poll_lines-delivered q.content during (map some after ++ none ∷ polls_of blocks) b enough
          pieces closed in
      let (last, rest, end) = poll_rest-join after (polls_of blocks) array behind still in
      (last, rw run (rw rest (rw all refl)), end)),
  polls_of-Supplies qs blocks h,
)

-- A session of the client at the server: the server's child is served to its end, and if the polls of each request
-- give the bytes that it sends for it, in pieces of any size and at any of the polls, and the poll that times out comes
-- behind the last of them, then the client has asked for the files that exist, in order and as the edits before have
-- left them, each file that it has asked for has been replaced by itself without the line, and no other has changed.
-- A file need not end with a newline. The paths have at most 255 bytes; every file has less than 2^31 - 1 bytes and lines
-- of at most 256; no call of the client fails, and the headers arrive whole. The client prints its array of 256 bytes as a
-- string behind every `recv`, which does not end it: the array ends with a zero byte before the session, and every
-- piece has fewer bytes.
pub poll_session-edited :
    (env : Surroundings) (decimal : ℤ → Bytes) (arrived : ℕ → ℕ → ℕ) (v : Vars) (edits : List Edit)
    (array buff : Bytes) (files : Files) (blocks : List Block)
    → IsCalm env decimal
    → WholeHeaders arrived
    → HasRoom v
    → length array ≡ 256
    → Closed buff
    → All IsEdit edits
    → AllFiles IsShort files
    → AreBlocks (asks array edits files) blocks
    → let asked = asks array edits files in
      (serve_connection arrived v (map byte (requests_bytes asked) ++ eof ∷ [])
        ≡ some (record { sent = answers asked; closed = true }))
      × ((e : Desk Poll) × (poll_session env array buff files
              (polls_of blocks)
              (typed decimal edits)
            ≡ some e)
          × (e.asked ≡ asked)
          × (e.files ≡ edited edits files))
unfolding poll_session
poll_session-edited env decimal arrived v edits array buff files blocks calm whole room size closed
      ok fine given =
    let qs = asks array edits files in
    let short = asks-IsSound IsShort without-IsShort edits array files size ok fine in
    let (e, (run, home, done, asked, after)) =
      edited_from poll_file env decimal calm edits (opened array buff files (polls_of blocks)) ok
        refl refl closed (polls_of-Supplies qs blocks given) in
    (serve_connection-answers arrived v qs whole room (All-IsAsk qs short), (e, run, asked, after))
