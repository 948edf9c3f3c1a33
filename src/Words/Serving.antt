-- ===== src/Words/Serving.antt =====
-- One request, from its bytes to the answer.
use lab_reti_di_calcolatori.Base.{
  ℕ, ◌+◌, ◌<◌, ◌^◌, Bool, true, false, List, [], ◌∷◌, some, none, map, ◌≡◌, ◌⊎◌, inl, inr, sym, ap,
  ◌∙◌, arith, length, bind-eq-some, some_inj, Bool-cases, Option-cases, refl,
}
use lab_reti_di_calcolatori.Base.Int.{pos}
use lab_reti_di_calcolatori.Base.CString.{Bytes, Without}
use lab_reti_di_calcolatori.Words.{
  System, Served, refused, parse_request, build_request, delete_word, serve,
}
use lab_reti_di_calcolatori.Words.Tokens.{Token, flatten, tokens, without_word, occurrences, Fits}
use lab_reti_di_calcolatori.Words.Deletion.{delete_word_lem, overlong, delete_word-overlong}
use lab_reti_di_calcolatori.Words.Request.{IsField, parse_request-build_request}

-- The client's request for a regular file that can be read, when the temporary file opens: the file
-- is replaced by itself with every occurrence of the word deleted, and the answer is their number.
-- The file holds no zero byte, its words fit the buffer and it is shorter than 2^31 - 1 bytes.
pub serve_request :
    (sys : System) (stats_dir : Bool) (f p content r : Bytes)
    → IsField f
    → IsField p
    → build_request f p ≡ some r
    → sys.stat_dir f ≡ some false
    → sys.open_file f ≡ some content
    → sys.tmp_opens ≡ true
    → Without 0 content
    → Fits (tokens content)
    → length content + 1 < 2 ^ 31
    → serve sys stats_dir r
      ≡ some (record {
        stats_dir = false;
        renamed = some (f, flatten (map (without_word p) (tokens content)));
        answer = pos (occurrences p (tokens content));
      })
unfolding serve
serve_request sys dir f p content r hf hp built st op tmp z fits n =
    let (r', built', _, parsed) = parse_request-build_request f p hf hp in
    let parsed' : parse_request r ≡ some (f, p) = rw (some_inj (sym built ∙ built')) parsed in
    rw parsed' (ground (arith, delete_word_lem p content z fits n))

-- The files that the system opens have no zero byte and are shorter than 2^31 - 1 bytes.
abbrev pub Small : System → Type 0
Small sys =
    (f content : Bytes)
    → sys.open_file f ≡ some content
    → Without 0 content × (length content + 1 < 2 ^ 31)

-- The path is taken for a directory, or one of the two files does not open.
abbrev pub Refuses : System → Bool → Bytes → Type 0
Refuses sys dir f = (dir ≡ true) ⊎ ((sys.open_file f ≡ none) ⊎ (sys.tmp_opens ≡ false))

-- The answer is the number of the occurrences of the word, and `rename` is called for the file without them.
abbrev pub Deletes : System → Bytes → Bytes → Served → Type 0
Deletes sys f p s =
    (content : Bytes) × (sys.open_file f ≡ some content)
    × (sys.tmp_opens ≡ true)
    × (s.stats_dir ≡ false)
    × (s.renamed ≡ some (f, flatten (map (without_word p) (tokens content))))
    × (s.answer ≡ pos (occurrences p (tokens content)))

abbrev pub Answers : System → Bytes → Bytes → Served → Type 0
Answers sys f p s = ((s ≡ refused s.stats_dir) × Refuses sys s.stats_dir f) ⊎ Deletes sys f p s

overlong-Fits : (ts : List Token) → overlong ts ≡ false → Fits ts
overlong-Fits [] h = tt
overlong-Fits (t ∷ ts) h = (ground arith, overlong-Fits ts (ground arith))

delete_word_content :
    (p content out : Bytes) (n : ℕ)
    → Without 0 content
    → length content + 1 < 2 ^ 31
    → delete_word p content ≡ some (out, n)
    → (flatten (map (without_word p) (tokens content)) ≡ out) × (occurrences p (tokens content) ≡ n)
delete_word_content p content out n z small h = elim (Bool-cases (overlong (tokens content))) [
  | inl long ↦ let fault = delete_word-overlong p content z long small in absurd (cc)
  | inr fits ↦
      let right = delete_word_lem p content z (overlong-Fits (tokens content) fits) small in
      let same = some_inj (sym right ∙ h) in (ap (λ x. x.0) same, ap (λ x. x.1) same)
]

-- The directory bit of `stats` behind the call of `stat`.
abbrev bit : System → Bool → Bytes → Bool
bit sys stats_dir f = elim (sys.stat_dir f) [ none ↦ stats_dir | some d ↦ d ]

refused-Answers :
    (sys : System) (f p : Bytes) (dir : Bool) (s : Served)
    → some (refused dir) ≡ some s
    → Refuses sys dir f
    → Answers sys f p s
refused-Answers sys f p dir s e why = inl (rw (← some_inj e) (refl, why))

serve_parsed :
    (sys : System) (stats_dir : Bool) (received f p : Bytes) {s : Served}
    → Small sys
    → parse_request received ≡ some (f, p)
    → serve sys stats_dir received ≡ some s
    → (d : Bool) → bit sys stats_dir f ≡ d
    → Answers sys f p s
unfolding serve
serve_parsed sys stats_dir received f p {s} small parsed h true folder =
    refused-Answers sys f p true s (rw folder at (rw parsed at h)) (inl refl)
serve_parsed sys stats_dir received f p {s} small parsed h false plain =
    let run = rw plain at (rw parsed at h) in
    elim (Option-cases (sys.open_file f)) [
      | inl missing ↦
          refused-Answers sys f p false s (rw plain at (rw missing at run)) (inr (inl missing))
      | inr (content, opened) ↦ elim (Bool-cases sys.tmp_opens) [
        | inr shut ↦
            refused-Answers sys f p false s (rw plain at (rw (opened, shut) at run))
              (inr (inr shut))
        | inl open_tmp ↦
            let (z, short) = small f content opened in
            let ((out, n), deleted, e) =
              bind-eq-some (delete_word p content) _ (rw plain at (rw (opened, open_tmp) at run)) in
            let (text, count) = delete_word_content p content out n z short deleted in
            let same = sym (some_inj e) in
            inr (
              content,
              opened,
              open_tmp,
              ap (λ (x : Served). x.stats_dir) same,
              rw text (ap (λ (x : Served). x.renamed) same),
              rw count (ap (λ (x : Served). x.answer) same),
            )
      ]
    ]

-- Whatever bytes come, a request that is served has a path and a word, and the answer is one of two: -1, with no
-- call of `rename`, where the path is taken for a directory, or it or the temporary file does not open; or, where
-- both open, the number of the occurrences of the word in the file, with the call of `rename` that
-- gives this path to the file without them. The files that
-- open have no zero byte and are shorter than 2^31 - 1 bytes.
pub serve_answer :
    (sys : System) (stats_dir : Bool) (received : Bytes) {s : Served}
    → Small sys
    → serve sys stats_dir received ≡ some s
    → (f : Bytes) × (p : Bytes) × (parse_request received ≡ some (f, p)) × Answers sys f p s
unfolding serve
serve_answer sys stats_dir received small h =
    let ((f, p), parsed, h1) = bind-eq-some (parse_request received) _ h in
    (
      f,
      p,
      parsed,
      serve_parsed sys stats_dir received f p small parsed h (bit sys stats_dir f) refl,
    )

-- A well-formed request for a path that is a directory or cannot be opened, or that comes when the
-- temporary file does not open, is answered by -1 and replaces no file.
pub serve_refuses :
    (sys : System) (stats_dir : Bool) (f p received : Bytes)
    → parse_request received ≡ some (f, p)
    → (sys.stat_dir f ≡ some true) ⊎ ((sys.open_file f ≡ none) ⊎ (sys.tmp_opens ≡ false))
    → (dir : Bool) × (serve sys stats_dir received ≡ some (refused dir))
unfolding serve
serve_refuses sys stats_dir f p received parsed why =
    rw parsed
      (let d : Bool = elim (sys.stat_dir f) [ none ↦ stats_dir | some b ↦ b ] in (d, ground arith))
