-- ===== src/Lines/Transfer.antt =====
-- The loop over a file that arrives whole sends its lines back but one.
use native.Mathlib.Nat.{zero-add}
use lab_reti_di_calcolatori.Base.{
  ℕ, ◌+◌, ◌≤◌, ◌<◌, ◌^◌, false, not, Option, some, List, [], ◌∷◌, ◌++◌, map, ◌≡◌, refl, sym, ap,
  ◌∙◌, arith, if◌then◌else◌, ◌==◌, length, length-append, append_assoc, append-nil, Bool-cases, inl,
  inr, lt→ltb, le→ltb, ◌>>=◌,
}
use lab_reti_di_calcolatori.Base.Int.{ℤ, pos, ltb_ℤ, add_int, count_up, count_up_lem}
use lab_reti_di_calcolatori.Base.CString.{Bytes}
use lab_reti_di_calcolatori.Lines.{
  Recv, byte, Upload, Request, answered, is_riga, buff_size, take_char, receive, receive_file,
  serve_file,
}
use lab_reti_di_calcolatori.Lines.Text.{
  lines, prepend, kept, join, Fits, prepend-extend, prepend_nil-lines, Fits-prepend, kept_at,
  kept_none, NoLine, join-lines,
}

count_byte : (k : ℕ) → k + 1 < 2 ^ 31 → add_int (pos k) (pos 1) ≡ some (pos (k + 1))
unfolding add_int
count_byte k h = ground arith

pub receive_newline :
    (riga : ℤ) (k : ℕ) (s : Upload)
    → s.i ≡ pos k
    → k + 1 < 2 ^ 31
    → s.line_counter + 1 < 2 ^ 31
    → length s.buff < buff_size
    → receive riga (byte b'\n') s
      ≡ some (record {
        i = pos (k + 1);
        tmp = b'\n';
        buff = [];
        line_counter = s.line_counter + 1;
        sent =
            if not (is_riga riga (s.line_counter + 1))
            then s.sent ++ (s.buff ++ b'\n' ∷ []) ∷ []
            else s.sent;
      })
unfolding receive take_char
receive_newline riga k s e h n l =
    rw e (rw (count_byte k h) (rw (count_up_lem s.line_counter n) (rw (lt→ltb _ _ l))))

pub receive_other :
    (riga : ℤ) (c k : ℕ) (s : Upload)
    → (c == b'\n') ≡ false
    → s.i ≡ pos k
    → k + 1 < 2 ^ 31
    → length s.buff < buff_size
    → receive riga (byte c) s
      ≡ some (record s { i = pos (k + 1); tmp = c; buff = s.buff ++ c ∷ [] })
unfolding receive take_char
receive_other riga c k s o e h l = rw e (rw (count_byte k h) (rw o (rw (lt→ltb _ _ l))))

-- What the loop and the sending of the last line come to from state `s`.
finish : ℤ → ℤ → Upload × List Recv → Option Request
finish riga dim p =
    let last = do
      n ← count_up p.0.line_counter
      some (answered (if not (is_riga riga n) then p.0.sent ++ p.0.buff ∷ [] else p.0.sent) p.1)
    in if ltb_ℤ p.0.i dim then some (Request.waiting p.0) else last

-- The loop stops with `dim` bytes, and goes on below.
receive_file_stop :
    (riga : ℤ) (k dim : ℕ) (rs : List Recv) (s : Upload)
    → s.i ≡ pos k
    → dim ≤ k
    → receive_file riga (pos dim) rs s ≡ some (s, rs)
unfolding receive_file
receive_file_stop riga k dim [] s e h = refl
receive_file_stop riga k dim (r ∷ rs) s e h = rw e (rw (le→ltb (k + 0) (dim + 0) (omega arith)))

pub receive_file_next :
    (riga : ℤ) (k dim : ℕ) (r : Recv) (rs : List Recv) (s : Upload)
    → s.i ≡ pos k
    → k < dim
    → receive_file riga (pos dim) (r ∷ rs) s ≡ (receive riga r s >>= receive_file riga (pos dim) rs)
unfolding receive_file
receive_file_next riga k dim r rs s e h = rw e (rw (lt→ltb (k + 0) (dim + 0) (omega arith)))

finish_lem :
    (riga : ℤ) (k dim : ℕ) (rest : List Recv) (s : Upload)
    → s.i ≡ pos k
    → dim ≤ k
    → s.line_counter + 1 < 2 ^ 31
    → finish riga (pos dim) (s, rest)
      ≡ some (answered (s.sent ++ kept riga (s.line_counter + 1) (s.buff ∷ [])) rest)
unfolding finish
finish_lem riga k dim rest s e h n = rw e (
    rw (le→ltb (k + 0) (dim + 0) (omega arith)) (
      rw (count_up_lem s.line_counter n) (elim (Bool-cases (is_riga riga (s.line_counter + 1))) [
        | inl this ↦ rw this (rw (append-nil s.sent))
        | inr other ↦ rw other
      ])))

pub kept_step :
    (riga : ℤ) (n : ℕ) (sent ls : List Bytes) (l : Bytes)
    → (if not (is_riga riga n) then sent ++ l ∷ [] else sent) ++ kept riga (n + 1) ls
      ≡ sent ++ kept riga n (l ∷ ls)
kept_step riga n sent ls l = elim (Bool-cases (is_riga riga n)) [
  | inl this ↦ rw this
  | inr other ↦ rw other (append_assoc sent (l ∷ []) (kept riga (n + 1) ls))
]

receive_file-lines :
    (riga : ℤ) (content : Bytes) (k dim : ℕ) (rest : List Recv) (s : Upload)
    → s.i ≡ pos k
    → dim ≡ k + length content
    → dim < 2 ^ 31
    → s.line_counter + length content + 1 < 2 ^ 31
    → Fits (prepend s.buff (lines content))
    → (receive_file riga (pos dim) (map byte content ++ rest) s >>= finish riga (pos dim))
      ≡ some (
          answered (s.sent ++ kept riga (s.line_counter + 1) (prepend s.buff (lines content))) rest)
receive_file-lines riga [] k dim rest s e d lt n f =
    rw (receive_file_stop riga k dim rest s e (omega arith))
      (rw (append-nil s.buff) (finish_lem riga k dim rest s e (omega arith) (omega arith)))
receive_file-lines riga (c ∷ cs) k dim rest s e d lt n f =
    rw (receive_file_next riga k dim (byte c) (map byte cs ++ rest) s e (omega arith))
      (elim (Bool-cases (c == b'\n')) [
        | inl newline ↦
            let c' : c ≡ b'\n' = ground arith in
            let f' = rw newline at f in
            let ih =
              receive_file-lines riga cs (k + 1) dim rest
                (record {
                  i = pos (k + 1);
                  tmp = b'\n';
                  buff = [];
                  line_counter = s.line_counter + 1;
                  sent =
                      if not (is_riga riga (s.line_counter + 1))
                      then s.sent ++ (s.buff ++ b'\n' ∷ []) ∷ []
                      else s.sent;
                })
                refl (omega arith) lt (omega arith) (rw (prepend_nil-lines cs) f'.1) in
            let step =
              receive_newline riga k s e (omega arith) (omega arith)
                (omega (arith, f'.0, length-append s.buff (c ∷ []))) in
            rw newline (
              rw c' (
                rw step (
                  rw (prepend_nil-lines cs) at ih
                  ∙ ap (λ l. some (answered l rest)) (kept_step riga _ s.sent (lines cs) _))))
        | inr other ↦
            let f' = rw (other, prepend-extend s.buff c (lines cs)) at f in
            let ih =
              receive_file-lines riga cs (k + 1) dim rest
                (record s { i = pos (k + 1); tmp = c; buff = s.buff ++ c ∷ [] }) refl (omega arith)
                lt (omega arith) f' in
            let step = receive_other riga c k s other e (omega arith) (
              omega (
                arith,
                Fits-prepend (s.buff ++ c ∷ []) (lines cs) f',
                length-append s.buff (c ∷ []),
              )) in
            rw (other, prepend-extend s.buff c (lines cs)) (rw step ih)
      ])

pub serve_file-kept :
    (riga : ℤ) (tmp : ℕ) (content : Bytes) (rest : List Recv)
    → length content + 1 < 2 ^ 31
    → Fits (lines content)
    → serve_file riga (pos (length content)) tmp (map byte content ++ rest)
      ≡ some (answered (kept riga 1 (lines content)) rest)
unfolding serve_file finish
serve_file-kept riga tmp content rest n f =
    let start : Upload = record { i = pos 0; tmp = tmp; buff = []; line_counter = 0; sent = [] } in
    let run =
      receive_file-lines riga content 0 (length content) rest start refl (sym (zero-add _))
        (omega arith) (omega arith) (rw (prepend_nil-lines content) f) in
    rw (prepend_nil-lines content) at run

-- A file of less than 2^31 - 1 bytes that arrives whole, with lines of at most 256 bytes, is sent
-- back line by line without the line that the request names, and what the client sends next is
-- left unread.
pub serve_file_deletes :
    (tmp : ℕ) (content : Bytes) (before after : List Bytes) (l : Bytes) (rest : List Recv)
    → length content + 1 < 2 ^ 31
    → Fits (lines content)
    → lines content ≡ before ++ l ∷ after
    → serve_file (pos (length before + 1)) (pos (length content)) tmp (map byte content ++ rest)
      ≡ some (answered (before ++ after) rest)
serve_file_deletes tmp content before after l rest n f parts =
    serve_file-kept _ tmp content rest n f
    ∙ rw parts (ap (λ ls. some (answered ls rest)) (kept_at before after l _ 1 (omega arith)))

-- Where no line has the number that the request names (0, a negative number, or more than there are
-- lines), the lines that are sent back are all lines of the file: together they are its bytes.
pub serve_file_returns_all :
    (riga : ℤ) (tmp : ℕ) (content : Bytes) (rest : List Recv)
    → length content + 1 < 2 ^ 31
    → Fits (lines content)
    → NoLine riga (lines content)
    → (sent : List Bytes) × (serve_file riga (pos (length content)) tmp (map byte content ++ rest)
        ≡ some (answered sent rest))
      × (join sent ≡ content)
serve_file_returns_all riga tmp content rest n f no_line = (
  lines content,
  serve_file-kept riga tmp content rest n f
      ∙ ap (λ ls. some (answered ls rest)) (kept_none riga (lines content) no_line),
  join-lines content,
)
