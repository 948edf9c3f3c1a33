-- ===== src/LineClient/Tests.antt =====
-- Runs of the client, and the theorem at a concrete input. A number is written here as a sign and as many ones.
use lab_reti_di_calcolatori.Base.{
  true, Option, none, some, List, [], ◌∷◌, ◌++◌, map, ◌≡◌, refl, ap, subst, arith, length,
  replicate, length-replicate, if◌then◌else◌, ◌==◌, Bool-cases, inl, inr, some_inj,
}
use lab_reti_di_calcolatori.Base.Int.{ℤ, pos, negsuc, count_up}
use lab_reti_di_calcolatori.Base.CString.{Bytes, codes, str_eq, scan_word, read_string}
use lab_reti_di_calcolatori.Base.Array.{Closed}
use lab_reti_di_calcolatori.Lines.{byte, eof}
use lab_reti_di_calcolatori.Lines.Connection.{Vars, Replies, serve_connection}
use lab_reti_di_calcolatori.Lines.Requests.{requests_bytes, answers}
use lab_reti_di_calcolatori.LineClient.{
  Files, Surroundings, waits, opened, Desk, send_whole, feed, feed_all, read_riga, enter_name,
  enter_riga, request_file, replace_file, send_file, skip_junk,
}
use lab_reti_di_calcolatori.LineClient.Loop.{nonempty}
use lab_reti_di_calcolatori.LineClient.Texts.{IsShort, IsWhole}
use lab_reti_di_calcolatori.LineClient.Edits.{Edit, AllFiles, put, edited, asks, typed}
use lab_reti_di_calcolatori.Polling.Client.{Poll, poll_session}
use lab_reti_di_calcolatori.Polling.Edits.{Block, polls_of, poll_session-edited}
use lab_reti_di_calcolatori.LineClient.Rewrites.{session_edited}
use lab_reti_di_calcolatori.LineClient.Dialogue.{IsCalm, Ends}

abbrev number : ℤ → Bytes
number (pos n) = b'+' ∷ replicate n b'1'
number (negsuc n) = b'-' ∷ replicate n b'1'

abbrev scanned : Bytes → Option ℤ × Bytes
scanned [] = (none, [])
scanned (c ∷ word) =
    if c == b'+'
    then (some (pos (length word)), [])
    else if c == b'-'
    then (some (negsuc (length word)), [])
    else (none, c ∷ word)

abbrev calm : Surroundings
calm = record {
  scan_int = scanned;
  sends = λ k. true;
  creates = λ k. true;
  rename = λ r files. some (put r.0 r.1 files);
}

scanned-number : (riga : ℤ) → scanned (number riga) ≡ (some riga, [])
scanned-number (pos n) = ap (λ m. (some (pos m), [])) (length-replicate n b'1')
scanned-number (negsuc n) = ap (λ m. (some (negsuc m), [])) (length-replicate n b'1')

calm-IsCalm : IsCalm calm number
calm-IsCalm = record {
  sent = λ k. refl;
  created = λ k. refl;
  scanned = λ riga int. scanned-number riga;
  renamed = λ f content files. refl;
}

abbrev note : Bytes
note = codes "note"

abbrev text : Bytes
text = codes "one\ntwo\nthree\n"

abbrev files : Files
files = put note text (λ g. none)

files-AreWhole : AllFiles IsWhole files
files-AreWhole g content e = elim (Bool-cases (str_eq g note)) [
  | inl same ↦
      subst IsWhole (some_inj (rw same at e)) (refl, (omega arith, (omega arith, omega arith)))
  | inr other ↦ absurd (let e' = rw other at e in cc)
]

-- The second line goes, a file that is missing is skipped, and then the first line goes.
abbrev edits : List Edit
edits = (note, pos 2) ∷ (codes "none", pos 1) ∷ (note, pos 1) ∷ []

edits_done : edited edits files note ≡ some (codes "three\n")
unfolding str_eq
edits_done = refl

abbrev array : Bytes
array = replicate 256 7

-- What the stack has left there ends with a zero byte.
abbrev buffer : Bytes
buffer = replicate 255 7 ++ 0 ∷ []

buffer-Closed : Closed buffer
buffer-Closed = (replicate 255 7, [], refl, refl)

abbrev variables : Vars
variables = record {
  nome_file = replicate 256 7;
  riga = replicate 4 7;
  dim = replicate 4 7;
  tmp = 7;
  header = 0;
}

session_edited_example :
    (r : Replies) × (serve_connection
        (λ h k. 256)
        variables
        (map byte (requests_bytes (asks array edits files)) ++ eof ∷ [])
      ≡ some r)
    × (r.closed ≡ true)
    × ((e : Desk Bytes) × Ends send_whole calm number edits
          (opened array buffer files (nonempty r.sent))
          e)
session_edited_example =
    session_edited calm number (λ h k. 256) variables edits array buffer files calm-IsCalm
      (λ h k. omega arith) (refl, refl, refl) refl buffer-Closed
      ((omega arith, omega arith), ((omega arith, omega arith), ((omega arith, omega arith), tt)))
      files-AreWhole

-- Two files, of which the first does not end with a newline. Its last line is not received for it.
abbrev cut : Files
cut = put note (codes "one\ntwo") (put (codes "next") (codes "a\nb\n") (λ g. none))

abbrev chunks : List Bytes
chunks = codes "one\n" ∷ codes "two" ∷ codes "a\n" ∷ codes "b\n" ∷ []

cut_run :
    (e : Desk Bytes) × (feed_all send_whole calm
        (note ∷ number (pos 9) ∷ codes "next" ∷ number (pos 9) ∷ [])
        (opened array buffer cut chunks)
      ≡ some e)
    × (e.files note ≡ some (codes "one\n"))
    × (e.files (codes "next") ≡ some (codes "twoa\n"))
    × (e.chunks ≡ codes "b\n" ∷ [])
unfolding feed_all feed read_riga enter_name enter_riga request_file replace_file send_file
    scan_word str_eq count_up read_string
cut_run = (_, refl, refl, refl, refl)

-- A word that is no number is skipped, and the client waits for a line that does not come.
waits_run :
    (e : Desk Bytes) × (feed_all send_whole calm
        (note ∷ codes "x" ∷ number (pos 9) ∷ codes "next" ∷ [])
        (opened array buffer files [])
      ≡ some e)
    × (e.prompt ≡ waits)
unfolding feed_all feed read_riga enter_name enter_riga request_file replace_file send_file
    skip_junk scan_word str_eq count_up read_string
waits_run = (_, refl, refl)

-- The client with `select` on a file that does not end with a newline: nothing has come when it asks, and then two
-- pieces of the last line come.
abbrev open_end : Files
open_end = put note (codes "one\ntwo") (λ g. none)

open_end-AllFiles : AllFiles IsShort open_end
open_end-AllFiles g content e = elim (Bool-cases (str_eq g note)) [
  | inl same ↦ subst IsShort (some_inj (rw same at e)) (omega arith, omega arith)
  | inr other ↦ absurd (let e' = rw other at e in cc)
]

abbrev few_edits : List Edit
few_edits = (note, pos 1) ∷ (codes "none", pos 1) ∷ []

abbrev blocks : List Block
blocks = (none ∷ [], codes "tw" ∷ codes "o" ∷ []) ∷ []

poll_session-edited_example :
    let asked = asks array few_edits open_end in
    (serve_connection (λ h k. 256) variables (map byte (requests_bytes asked) ++ eof ∷ [])
      ≡ some (record { sent = answers asked; closed = true }))
    × ((e : Desk Poll) × (poll_session calm array buffer open_end
            (polls_of blocks)
            (typed number few_edits)
          ≡ some e)
        × (e.asked ≡ asked)
        × (e.files ≡ edited few_edits open_end))
unfolding str_eq
poll_session-edited_example =
    poll_session-edited calm number (λ h k. 256) variables few_edits array buffer open_end blocks
      calm-IsCalm (λ h k. omega arith) (refl, refl, refl) refl buffer-Closed
      ((omega arith, omega arith), ((omega arith, omega arith), tt)) open_end-AllFiles
      ((omega arith, refl, tt, (omega arith, (omega arith, tt))), tt)
