-- ===== src/Exchange/Moving.antt =====
-- The two go on to their end where the client can print what it receives.
use lab_reti_di_calcolatori.Base.{
  ℕ, ◌+◌, ◌≤◌, ◌<◌, ◌^◌, min, List, ◌==◌, ◌≡◌, refl, ap, ◌∙◌, arith, length, inl, inr, ◌⊎◌, All,
  ◌++◌, take, drop, false,
}
use lab_reti_di_calcolatori.Base.Int.{ℤ}
use lab_reti_di_calcolatori.Base.CString.{Bytes}
use lab_reti_di_calcolatori.Base.Array.{Closed, Closed-read_string}
use lab_reti_di_calcolatori.Lines.Text.{join, lines, kept, Fits}
use lab_reti_di_calcolatori.Exchange.{
  moved, Link, System, Action, recv, store_chunk, take_chunk, printed, and_then, act, run, start,
}
use lab_reti_di_calcolatori.Exchange.Invariant.{cfg}
use lab_reti_di_calcolatori.Exchange.Printed.{store_chunk-Closed}
use lab_reti_di_calcolatori.Exchange.Safety.{start-Sys}
use lab_reti_di_calcolatori.Exchange.Progress.{IsDone, CanMove, CanReceive, can_move}
use lab_reti_di_calcolatori.Exchange.Written.{IsPiece, Both, run-Both}

arrived : (l t : Link) → store_chunk 256 l ≡ moved t → 1 ≤ length l.to_client
unfolding store_chunk
arrived l t h = ground arith

piece_stored : (l : Link) → 1 ≤ length l.to_client → (t : Link) × (store_chunk 255 l ≡ moved t)
unfolding store_chunk
piece_stored l h =
    let k = min 255 (min 256 (length l.to_client)) in
    let some_here : (min 255 (min 256 (length l.to_client)) == 0) ≡ false = ground arith in
    (
      record l {
        to_client = drop k l.to_client;
        buff = take k l.to_client ++ drop k l.buff;
        written = l.written ++ take k l.to_client;
      },
      rw some_here refl,
    )

piece_taken :
    (l : Link) → 1 ≤ length l.to_client → Closed l.buff → (t : Link) × (take_chunk 255 l ≡ moved t)
unfolding take_chunk
piece_taken l h closed =
    let (t, stored) = piece_stored l h in
    let kept : Closed t.buff = rw stored at (store_chunk-Closed 255 l (omega arith) closed) in
    let (line, reads) = Closed-read_string t.buff kept in
    (t, ap (λ o. and_then o printed) stored ∙ rw (reads, printed) refl)

receives_moves :
    (riga : ℤ) (dim : ℕ) (s : System) → Closed s.link.buff → CanReceive s → CanMove (cfg riga dim) s
unfolding act
receives_moves riga dim s closed (waits, t, stored) =
    let (u, taken) = piece_taken s.link (arrived s.link t stored) closed in
    (
      recv 255,
      record { client = record s.client { waiting = false }; link = u },
      rw waits (rw taken refl),
    )

-- Where the client's array ends with a zero byte at first and no piece that it receives fills it, a run of
-- the two that has not come to its end, the client past its loop and the server past its last
-- line, can be taken further by one of them, and that step is defined. The file has less than 2^31 - 1 bytes
-- and lines of at most 256.
pub run_moves :
    (riga : ℤ) (array : Bytes) (tmp : ℕ) (earlier content : Bytes) (actions : List Action)
    (s : System)
    → length content + 1 < 2 ^ 31
    → Fits (lines content)
    → Closed array
    → All IsPiece actions
    → run (cfg riga (length content)) actions (start array tmp earlier content) ≡ moved s
    → (IsDone s) ⊎ CanMove (cfg riga (length content)) s
run_moves riga array tmp earlier content actions s small fits closed pieces runs =
    let all = earlier ++ join (kept riga 1 (lines content)) in
    let reached =
      run-Both riga (length content) all actions (start array tmp earlier content) pieces
        (start-Sys riga array tmp earlier content small fits, closed) in
    let both : Both riga (length content) all s = rw runs at reached in
    elim (can_move riga (length content) all s both.0) [
      | inl done ↦ inl done
      | inr (inl moves) ↦ inr moves
      | inr (inr receives) ↦ inr (receives_moves riga (length content) s both.1 receives)
    ]
