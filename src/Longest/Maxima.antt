-- ===== src/Longest/Maxima.antt =====
-- The answers of the longest-word service to a client, one after the other.
use lab_reti_di_calcolatori.Base.{
  ℕ, ◌+◌, ◌<◌, ◌≤◌, ◌^◌, false, Option, none, some, List, [], ◌∷◌, map, ◌≡◌, refl, sym, ap, subst,
  ◌∙◌, arith, All, length, if◌then◌else◌, lt→ltb, Option-cases, inl, inr,
}
use lab_reti_di_calcolatori.Base.Int.{ℤ, pos, negsuc, ◌≤ℤ◌, ltb_ℤ}
use lab_reti_di_calcolatori.Base.CString.{
  Bytes, read_string, scan_word, named, length-named, Without,
}
use lab_reti_di_calcolatori.Longest.{Server, line_length, receive_name, serve}
use lab_reti_di_calcolatori.Longest.Words.{
  ended, greatest, greatest_upper, read_words-greatest, lengths_zero,
}
use lab_reti_di_calcolatori.Longest.Client.{answer_longest, ask_longest}
use lab_reti_di_calcolatori.Base.CString.{read_string-terminated}
use lab_reti_di_calcolatori.Datagram.{reply, call_server}
use lab_reti_di_calcolatori.Datagram.Repeats.{repeated, call_server-repeated}

-- The greatest of the lengths of the ended words of a file and of the last answer, or -1 for no file.
abbrev pub maximum : Option Bytes → ℤ → ℤ
maximum none last = negsuc 0
maximum (some content) last = greatest last (map length (ended content))

abbrev pub maxima : (Bytes → Option Bytes) → List Bytes → ℤ → List ℤ
maxima open_file [] last = []
maxima open_file (name ∷ names) last =
    let answer = maximum (open_file name) last in answer ∷ maxima open_file names answer

greatest_reached_by :
    (ws : List Bytes) (r : ℤ) → All (λ w. pos (length w) ≤ℤ r) ws → greatest r (map length ws) ≡ r
greatest_reached_by [] r h = refl
greatest_reached_by (w ∷ ws) r (h, hs) =
    let same : (if ltb_ℤ r (pos (length w)) then pos (length w) else r) ≡ r = ground arith in
    ap (λ n. greatest n (map length ws)) same ∙ greatest_reached_by ws r hs

-- The same file again has the same answer.
maximum_twice :
    (content : Option Bytes) (last : ℤ)
    → maximum content (maximum content last) ≡ maximum content last
maximum_twice none last = refl
maximum_twice (some content) last =
    let ws = ended content in
    greatest_reached_by ws (greatest last (map length ws)) (greatest_upper ws last).1

receive_name_whole :
    (datagram file_name : Bytes)
    → length datagram ≡ length file_name
    → receive_name datagram file_name ≡ datagram
unfolding receive_name
receive_name_whole [] [] h = refl
receive_name_whole [] (old ∷ file_name) h = absurd (omega arith)
receive_name_whole (c ∷ cs) [] h = absurd (omega arith)
receive_name_whole (c ∷ cs) (old ∷ file_name) h =
    ap (◌∷◌ c) (receive_name_whole cs file_name (omega arith))

-- The server's array holds 256 bytes, its last answer is this, and it has at most `d` open files.
abbrev pub Answered : ℤ → ℕ → Server → Type 0
Answered last d s = (length s.file_name ≡ line_length) × (s.result ≡ last) × (s.descriptors ≤ d)

-- The files that the server can open have fewer than 2^31 bytes.
abbrev pub Small : (Bytes → Option Bytes) → Type 0
Small open_file = (g content : Bytes) → open_file g ≡ some content → length content < 2 ^ 31

-- How many copies of the requests reach the server.
abbrev pub delivered : (ℕ → ℕ) → ℕ → List Bytes → ℕ
delivered copies n [] = 0
delivered copies n (name ∷ names) = (copies n + 1) + delivered copies (n + 1) names

-- With fewer than `limit` open files, opening a path gives the same.
module _ (open_file : ℕ → Bytes → Option Bytes) (files : Bytes → Option Bytes) (limit : ℕ)
    (steady : (d : ℕ) (g : Bytes) → d < limit → open_file d g ≡ files g) (small : Small files) where
  answer_longest-maximum :
      (word datagram : Bytes) (last : ℤ) (d : ℕ) (s : Server)
      → length datagram ≡ line_length
      → read_string datagram ≡ some word
      → d < limit
      → Answered last d s
      → let answer = maximum (files word) last in
        (t : Server) × (answer_longest open_file datagram s ≡ some (answer, t))
        × Answered answer (d + 1) t
  unfolding answer_longest serve
  answer_longest-maximum word datagram last d s full read spare (room, result, held) =
      let array = receive_name_whole datagram s.file_name (full ∙ sym room) in
      let name : read_string (receive_name datagram s.file_name) ≡ some word = rw array read in
      let still = ap (λ (b : Bytes). length b) array ∙ full in
      let same = steady s.descriptors word (omega arith) in
      elim (Option-cases (files word)) [
        | inl missing ↦ (
          record s { file_name = receive_name datagram s.file_name; result = negsuc 0 },
          rw (name, same, missing),
          (still, rw missing, omega arith),
        )
        | inr (content, opened) ↦
            let answer = greatest last (map length (ended content)) in
            let fits = small word content opened in
            (
              record {
                file_name = receive_name datagram s.file_name;
                result = answer;
                descriptors = s.descriptors + 1;
              },
              rw (name, same, opened)
                  (rw (
                    result,
                    read_words-greatest content last 0 (omega arith),
                    lengths_zero (ended content),
                  )),
              (still, rw opened, omega arith),
            )
      ]

  call_server-maximum :
      (k : ℕ) (word datagram : Bytes) (last : ℤ) (d : ℕ) (s : Server)
      → length datagram ≡ line_length
      → read_string datagram ≡ some word
      → d + 1 + k ≤ limit
      → Answered last d s
      → let answer = maximum (files word) last in
        (t : Server) × (call_server (answer_longest open_file) (repeated k) datagram [] s
          ≡ some (record { result = reply answer; queue = []; server = t }))
        × Answered answer (d + 1 + k) t
  call_server-maximum k word datagram last d s full read spare h =
      let answer = maximum (files word) last in
      let (t, served, held) =
        answer_longest-maximum word datagram last d s full read (omega arith) h in
      call_server-repeated (answer_longest open_file) (Answered answer) limit datagram
        (λ e u few hu.
          let (v, again, kept) = answer_longest-maximum word datagram answer e u full read few hu in
          (_, v, again, subst (λ a. Answered a (e + 1) v) (maximum_twice (files word) last) kept))
        k (d + 1) answer s t served spare held

  -- The client shows for each name the length of the longest word in any of the files named since the last
  -- name that the server could not open, and for such a name -1: the words are those that a separator ends,
  -- and what the server had answered before the first counts, too. No request is given up and the client never
  -- waits in vain, however often each is delivered, as long as all copies together leave the server below
  -- the number of open files up to which opening a path gives the same: it closes none. The first
  -- copy of each request is answered and the answers to the others are lost; the names have no zero byte and room
  -- in the array, and the files fewer than 2^31 bytes.
  pub ask_longest-maxima :
      (copies : ℕ → ℕ) (names : List Bytes) (n : ℕ) (file_name : Bytes) (last : ℤ) (d : ℕ)
      (s : Server)
      → All (λ name. Without 0 name × (length name < line_length)) names
      → length file_name ≡ line_length
      → d + delivered copies n names ≤ limit
      → Answered last d s
      → (t : Server) × (ask_longest open_file (λ k. repeated (copies k)) n names file_name [] s
          ≡ some (record { shown = maxima files names last; blocked = false; server = t }))
  unfolding ask_longest scan_word
  ask_longest-maxima copies [] n file_name last d s ok room spare h = (s, refl)
  ask_longest-maxima copies (name ∷ names) n file_name last d s ((clean, fits), ok) room spare h =
      let array = named name file_name in
      let full = length-named name file_name (omega arith) ∙ room in
      let (t, called, held) =
        call_server-maximum (copies n) name array last d s full
          (read_string-terminated name _ clean) (omega arith) h in
      let (u, rest) =
        ask_longest-maxima copies names (n + 1) array _ (d + 1 + copies n) t ok full (omega arith)
          held in
      (u, rw (lt→ltb (length name) line_length fits) (rw called (rw rest)))
