-- ===== src/Lines/Truncated.antt =====
-- A client that closes the connection before it has sent the whole file.
use lab_reti_di_calcolatori.Base.{
  ℕ, zero, suc, ◌+◌, ◌≤◌, ◌<◌, ◌^◌, false, some, none, [], ◌∷◌, ◌++◌, ◌≡◌, refl, arith, ◌==◌,
  length, length-append, replicate, lt→ltb, le→ltb,
}
use native.Mathlib.Decide.{dec_lt}
use lab_reti_di_calcolatori.Base.Int.{ℤ, pos, add_int}
use lab_reti_di_calcolatori.Lines.{eof, Upload, buff_size, take_char, receive, receive_file}
use lab_reti_di_calcolatori.Lines.Transfer.{receive_file_next}

add_zero : (k : ℕ) → k < 2 ^ 31 → add_int (pos k) (pos 0) ≡ some (pos k)
unfolding add_int
add_zero k h = ground arith

-- At the end of the stream `recv` returns 0 and leaves the last byte in `tmp`, which is stored again.
receive_eof :
    (riga : ℤ) (k : ℕ) (s : Upload)
    → s.i ≡ pos k
    → k < 2 ^ 31
    → (s.tmp == b'\n') ≡ false
    → length s.buff < buff_size
    → receive riga eof s ≡ some (record s { i = pos k; buff = s.buff ++ s.tmp ∷ [] })
unfolding receive take_char
receive_eof riga k s e h t l = rw e (rw (add_zero k h) (rw t (rw (lt→ltb _ _ l))))

receive_eof_full :
    (riga : ℤ) (k : ℕ) (s : Upload)
    → s.i ≡ pos k
    → k < 2 ^ 31
    → (s.tmp == b'\n') ≡ false
    → buff_size ≤ length s.buff
    → receive riga eof s ≡ none
unfolding receive take_char
receive_eof_full riga k s e h t l = rw e (rw (add_zero k h) (rw t (rw (le→ltb _ _ l))))

-- Where the stream ends before `dim` bytes have come and the last byte was no newline, the loop
-- does not stop: it stores that byte again and again, and after at most 257 reads it has written
-- past its buffer.
pub receive_file_truncated :
    (riga : ℤ) (k dim reads : ℕ) (s : Upload)
    → s.i ≡ pos k
    → k < dim
    → dim < 2 ^ 31
    → (s.tmp == b'\n') ≡ false
    → length s.buff ≤ buff_size
    → buff_size < length s.buff + reads
    → receive_file riga (pos dim) (replicate reads eof) s ≡ none
receive_file_truncated riga k dim zero s e d lt t m l = absurd (omega arith)
receive_file_truncated riga k dim (suc reads) s e d lt t m l =
    elim (dec_lt (length s.buff) buff_size) [
      | yes room ↦ rw (receive_file_next riga k dim eof (replicate reads eof) s e d) (
          rw (receive_eof riga k s e (omega arith) t room) (
            receive_file_truncated riga k dim reads _ refl d lt t
              (omega (arith, length-append s.buff (s.tmp ∷ [])))
              (omega (arith, length-append s.buff (s.tmp ∷ [])))))
      | no full ↦
          rw (receive_file_next riga k dim eof (replicate reads eof) s e d)
            (rw (receive_eof_full riga k s e (omega arith) t (omega arith)))
    ]
