-- ===== src/LineClient/Dialogue.antt =====
-- The dialogue of esercitazione_3/es2/clientTCP.c and esercitazione_3/es2/clientTCPselect.c by the files of the client,
-- for any loop over a file.
use lab_reti_di_calcolatori.Base.{
  Option, false, subst, ℕ, ◌+◌, ◌<◌, true, some, List, [], ◌∷◌, ◌++◌, ◌≡◌, refl, sym, ap, ◌∙◌,
  arith, length, append_assoc, append-nil, drop_all, Option-cases, inl, inr, All, lt→ltb,
}
use lab_reti_di_calcolatori.Base.Int.{ℤ, IsInt}
use lab_reti_di_calcolatori.Base.CString.{Bytes, named, scan_word}
use lab_reti_di_calcolatori.Base.Array.{Closed, stored, Closed-stored}
use lab_reti_di_calcolatori.Lines.Connection.{Ask}
use lab_reti_di_calcolatori.LineClient.{
  Files, Surroundings, at_name, at_riga, Desk, Sent, request_file, replace_file, enter_name,
  enter_riga, read_riga, feed, feed_all,
}
use lab_reti_di_calcolatori.LineClient.Texts.{without}
use lab_reti_di_calcolatori.LineClient.Edits.{
  Edit, put, edited, asks, typed, IsEdit, asks_missing, asks_found, edited_missing, edited_found,
}

-- No call fails, a number that is written in decimal is read, and a renaming replaces the file.
pub record IsCalm (env : Surroundings) (decimal : ℤ → Bytes) : Type 0 where
  pub sent : (k : ℕ) → env.sends k ≡ true
  pub created : (k : ℕ) → env.creates k ≡ true
  pub scanned : (riga : ℤ) → IsInt riga → env.scan_int (decimal riga) ≡ (some riga, [])
  pub renamed :
      (f content : Bytes) (files : Files)
      → env.rename (f, content) files ≡ some (put f content files)

-- What the client has asked for and what its files are, where all the edits are done from `d`.
abbrev pub Ends :
    {C : Type 0}
    → (ℤ → Bytes → Bytes → List C → Option (Sent C))
    → Surroundings
    → (ℤ → Bytes)
    → List Edit
    → Desk C
    → Desk C
    → Type 0
Ends loop env decimal edits d e =
    (feed_all loop env (typed decimal edits) d ≡ some e)
    × (e.prompt ≡ at_name)
    × (e.chunks ≡ [])
    × (e.asked ≡ d.asked ++ asks d.nome_file edits d.files)
    × (e.files ≡ edited edits d.files)

-- From these chunks the loop gets the file without the line for each of the requests in order, and takes all,
-- whatever the array holds whose last byte is zero.
abbrev pub Supplies :
    {C : Type 0} → (ℤ → Bytes → Bytes → List C → Option (Sent C)) → List C → List Ask → Type 0
Supplies loop chunks [] = chunks ≡ []
Supplies {C} loop chunks (q ∷ qs) =
    (more : List C) × ((b : Bytes)
      → Closed b
      → (array : Bytes) × (loop q.riga q.content b chunks
          ≡ some (record {
            written = without q.riga q.content;
            later = more;
            buff = array;
            stuck = false;
          }))
        × Closed array)
    × Supplies loop more qs

module _ {C : Type 0} (loop : ℤ → Bytes → Bytes → List C → Option (Sent C)) (env : Surroundings)
    (decimal : ℤ → Bytes) (calm : IsCalm env decimal) where
  -- The client asks for the number of the line of a file.
  abbrev at_number : Bytes → Desk C → Desk C
  at_number nome d = record d { prompt = at_riga; nome = nome; nome_file = named nome d.nome_file }

  feed-name :
      (nome : Bytes) (d : Desk C)
      → d.prompt ≡ at_name
      → length nome < 256
      → feed loop env nome d ≡ some (at_number nome d)
  unfolding feed enter_name scan_word
  feed-name nome d start fits = rw start (rw (lt→ltb _ _ fits))

  feed-number :
      (riga : ℤ) (nome : Bytes) (d e : Desk C)
      → IsInt riga
      → enter_riga loop env riga (at_number nome d) ≡ some e
      → feed loop env (decimal riga) (at_number nome d) ≡ some e
  unfolding feed read_riga
  feed-number riga nome d e int entered =
      rw (calm.scanned riga int, feed, read_riga)
        (rw entered (rw (ap (λ x. x.1) (calm.scanned riga int))))

  request_file_written :
      (riga : ℤ) (content array : Bytes) (more : List C) (d : Desk C)
      → loop riga content (stored (0 ∷ []) d.buff) d.chunks
        ≡ some
            (record { written = without riga content; later = more; buff = array; stuck = false })
      → d.tmp ≡ []
      → request_file loop env riga content d
        ≡ some (record d {
          prompt = at_name;
          requests = d.requests + 1;
          asked =
              d.asked ++ record { nome_file = d.nome_file; riga = riga; content = content } ∷ [];
          chunks = more;
          files = put d.nome (without riga content) d.files;
          buff = array;
          tmp = [];
        })
  unfolding request_file replace_file
  request_file_written riga content array more d run empty =
      let text = without riga content in
      rw (calm.sent d.requests, calm.created d.requests)
        (rw run (
          rw empty (
            rw (drop_all {A = ℕ} (length text) [] (omega arith))
              (rw (append-nil text) (rw (calm.renamed d.nome text d.files))))))

  feed_all-next :
      (nome : Bytes) (riga : ℤ) (edits : List Edit) (d e : Desk C)
      → d.prompt ≡ at_name
      → IsEdit (nome, riga)
      → enter_riga loop env riga (at_number nome d) ≡ some e
      → feed_all loop env (typed decimal ((nome, riga) ∷ edits)) d
        ≡ feed_all loop env (typed decimal edits) e
  unfolding feed_all
  feed_all-next nome riga edits d e start (fits, int) entered =
      rw (feed-name nome d start fits) (rw (feed-number riga nome d e int entered))

  pub edited_from :
      (edits : List Edit) (d : Desk C)
      → All IsEdit edits
      → d.prompt ≡ at_name
      → d.tmp ≡ []
      → Closed d.buff
      → Supplies loop d.chunks (asks d.nome_file edits d.files)
      → (e : Desk C) × Ends loop env decimal edits d e
  unfolding feed_all enter_riga
  edited_from [] d ok start empty closed chunks =
      (d, (refl, start, chunks, sym (append-nil d.asked), refl))
  edited_from ((nome, riga) ∷ edits) d (edit, ok) start empty closed chunks =
      elim (Option-cases (d.files nome)) [
        | inl missing ↦
            let next = record (at_number nome d) { prompt = at_name } in
            let entered : enter_riga loop env riga (at_number nome d) ≡ some next =
              rw (missing, enter_riga) in
            let same = asks_missing nome riga edits d.nome_file d.files missing in
            let (e, (run, home, done, asked, files)) =
              edited_from edits next ok refl empty closed
                (subst (Supplies loop d.chunks) same chunks) in
            (
              e,
              (
                feed_all-next nome riga edits d next start edit entered ∙ run,
                home,
                done,
                asked ∙ ap (λ qs. d.asked ++ qs) (sym same),
                files ∙ sym (edited_missing nome riga edits d.files missing),
              ),
            )
        | inr (content, found) ↦
            let ask : Ask = record {
              nome_file = named nome d.nome_file;
              riga = riga;
              content = content;
            } in
            let files' = put nome (without riga content) d.files in
            let rest = asks (named nome d.nome_file) edits files' in
            let same = asks_found nome riga edits content d.nome_file d.files found in
            let (more, taken, supplied) = subst (Supplies loop d.chunks) same chunks in
            let (array, received, still) =
              taken (stored (0 ∷ []) d.buff) (Closed-stored (0 ∷ []) d.buff (omega arith) closed) in
            let sent =
              request_file_written riga content array more (at_number nome d) received empty in
            let next : Desk C = record (at_number nome d) {
              prompt = at_name;
              requests = d.requests + 1;
              asked = d.asked ++ ask ∷ [];
              chunks = more;
              files = files';
              buff = array;
              tmp = [];
            } in
            let entered : enter_riga loop env riga (at_number nome d) ≡ some next =
              rw (found, enter_riga) sent in
            let (e, (run, home, done, asked, files)) =
              edited_from edits next ok refl refl still supplied in
            (
              e,
              (
                feed_all-next nome riga edits d next start edit entered ∙ run,
                home,
                done,
                asked ∙ append_assoc d.asked (ask ∷ []) rest ∙ ap (λ qs. d.asked ++ qs) (sym same),
                files ∙ sym (edited_found nome riga edits content d.files found),
              ),
            )
      ]
