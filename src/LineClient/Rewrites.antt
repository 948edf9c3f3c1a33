-- ===== src/LineClient/Rewrites.antt =====
-- A session of esercitazione_3/es2/clientTCP.c at esercitazione_3/es2/serverTCP.c by the files of the client.
use lab_reti_di_calcolatori.Base.{
  false, ℕ, true, some, List, [], ◌∷◌, ◌++◌, map, ◌≡◌, refl, ap, ◌∙◌, arith, length, All,
}
use lab_reti_di_calcolatori.Base.Int.{ℤ}
use lab_reti_di_calcolatori.Base.CString.{Bytes}
use lab_reti_di_calcolatori.Base.Array.{Closed}
use lab_reti_di_calcolatori.Lines.{byte, eof}
use lab_reti_di_calcolatori.Lines.Text.{lines, kept, prepend_nil-lines}
use lab_reti_di_calcolatori.Lines.Connection.{Ask, Vars, Replies, serve_connection}
use lab_reti_di_calcolatori.Lines.Header.{HasRoom, WholeHeaders}
use lab_reti_di_calcolatori.Lines.Requests.{requests_bytes, answers, serve_connection-answers}
use lab_reti_di_calcolatori.LineClient.{Files, opened, Surroundings, Desk, send_whole}
use lab_reti_di_calcolatori.LineClient.Loop.{nonempty, nonempty-append, send_file-kept}
use lab_reti_di_calcolatori.LineClient.Texts.{
  IsShort, IsWhole, without, without-IsShort, without-IsWhole,
}
use lab_reti_di_calcolatori.LineClient.Edits.{
  Edit, asks, IsEdit, AllFiles, IsSound, asks-IsSound, All-IsAsk,
}
use lab_reti_di_calcolatori.LineClient.Dialogue.{IsCalm, Ends, Supplies, edited_from}

-- The client receives what the server sends for a request and leaves the rest.
send_whole-kept :
    (riga : ℤ) (content : Bytes) (more : List Bytes) (buff : Bytes)
    → IsWhole content
    → Closed buff
    → (array : Bytes) × (send_whole riga content buff
          (nonempty (kept riga 1 (lines content)) ++ more)
        ≡ some
            (record { written = without riga content; later = more; buff = array; stuck = false }))
      × Closed array
send_whole-kept riga content more buff (ends, (few, (fits, small))) closed =
    let raw =
      send_file-kept riga content [] 0 more buff (omega arith) ends
        (rw (prepend_nil-lines content) few) closed in
    rw (prepend_nil-lines content) at raw

answers-Supplies :
    (qs : List Ask) → All (IsSound IsWhole) qs → Supplies send_whole (nonempty (answers qs)) qs
answers-Supplies [] ok = refl
answers-Supplies (q ∷ qs) ((room, int, whole), ok) = (
  nonempty (answers qs),
  (λ b closed.
      let (array, run, still) =
        send_whole-kept q.riga q.content (nonempty (answers qs)) b whole closed in
      (
        array,
        ap (send_whole q.riga q.content b)
              (nonempty-append (kept q.riga 1 (lines q.content)) (answers qs))
            ∙ run,
        still,
      )),
  answers-Supplies qs ok,
)

-- A session of the client at the server: the server's child is served to its end, and if the client receives what it
-- has sent, each chunk by one `recv`, then the client has asked for the files that exist, in order and as the edits
-- before have left them, each file that it has asked for has been replaced by itself without the line, no other has
-- changed, and the client asks for the next name. The paths have at most 255 bytes; every file ends with a newline or is
-- empty, has less than 2^31 - 1 bytes and lines of at most 255; no call of the client fails, and the headers arrive
-- whole. The client prints its array of 256 bytes as a string behind every `recv`, which does not end it: the
-- array ends with a zero byte before the session.
pub session_edited :
    (env : Surroundings) (decimal : ℤ → Bytes) (arrived : ℕ → ℕ → ℕ) (v : Vars) (edits : List Edit)
    (array buff : Bytes) (files : Files)
    → IsCalm env decimal
    → WholeHeaders arrived
    → HasRoom v
    → length array ≡ 256
    → Closed buff
    → All IsEdit edits
    → AllFiles IsWhole files
    → let asked = asks array edits files in
      (r : Replies) × (serve_connection arrived v (map byte (requests_bytes asked) ++ eof ∷ [])
        ≡ some r)
      × (r.closed ≡ true)
      × ((e : Desk Bytes) × Ends send_whole env decimal edits
            (opened array buff files (nonempty r.sent))
            e)
session_edited env decimal arrived v edits array buff files calm whole room size closed ok fine =
    let qs = asks array edits files in
    let sound = asks-IsSound IsWhole without-IsWhole edits array files size ok fine in
    let short =
      asks-IsSound IsShort without-IsShort edits array files size ok
        (λ g content e. let (ends, (few, fits)) = fine g content e in fits) in
    (
      record { sent = answers qs; closed = true },
      serve_connection-answers arrived v qs whole room (All-IsAsk qs short),
      refl,
      edited_from send_whole env decimal calm edits (opened array buff files _) ok refl refl closed
          (answers-Supplies qs sound),
    )
