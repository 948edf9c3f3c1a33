-- ===== src/WordsClient/Dialogue.antt =====
-- The main loop of esercitazione_4/src/clientDatagram.c by the files that the service keeps.
use lab_reti_di_calcolatori.Base.{
  ℕ, ◌+◌, Bool, true, false, Option, none, some, List, [], ◌∷◌, ◌≡◌, refl, sym, ap, subst, ◌∙◌,
  arith, length, Bool-cases, Option-cases, inl, inr, All, lt→ltb, if◌then◌else◌,
}
use lab_reti_di_calcolatori.Base.Int.{ℤ, pos, negsuc}
use lab_reti_di_calcolatori.Base.CString.{Bytes, str_eq_refl, scan_word}
use lab_reti_di_calcolatori.Words.{System, line_length, build_request}
use lab_reti_di_calcolatori.Words.Tokens.{tokens, occurrences}
use lab_reti_di_calcolatori.Words.Again.{deleted, deleted_twice}
use lab_reti_di_calcolatori.Words.Request.{IsField, parse_request-build_request}
use lab_reti_di_calcolatori.Datagram.{reply, call_server}
use lab_reti_di_calcolatori.Datagram.Repeats.{repeated, call_server-repeated}
use lab_reti_di_calcolatori.WordsClient.{World, answer_datagram, converse}
use lab_reti_di_calcolatori.WordsClient.Store.{
  Store, put, delete_from, IsOther, Stores, IsRename, answer_datagram-delete_from,
}

delete_from_folder :
    (is_dir renames : Bytes → Bool) (f p : Bytes) (store : Store)
    → is_dir f ≡ true
    → delete_from is_dir renames f p store ≡ (negsuc 0, store)
delete_from_folder is_dir renames f p store folder = rw folder

delete_from_missing :
    (is_dir renames : Bytes → Bool) (f p : Bytes) (store : Store)
    → is_dir f ≡ false
    → store f ≡ none
    → delete_from is_dir renames f p store ≡ (negsuc 0, store)
delete_from_missing is_dir renames f p store plain missing = rw (plain, missing)

delete_from_found :
    (is_dir renames : Bytes → Bool) (f p : Bytes) (store : Store) (content : Bytes)
    → is_dir f ≡ false
    → store f ≡ some content
    → delete_from is_dir renames f p store ≡ (
      pos (occurrences p (tokens content)),
      if renames f then put f (deleted p content) store else store,
    )
delete_from_found is_dir renames f p store content plain found = rw (plain, found)

put_twice :
    (f content : Bytes) (store : Store) (g : Bytes)
    → put f content (put f content store) g ≡ put f content store g
put_twice f content store g = ground arith

-- A second request for the same deletion changes no file.
delete_from_twice :
    (is_dir renames : Bytes → Bool) (f p : Bytes) (store : Store) (g : Bytes)
    → (delete_from is_dir renames f p (delete_from is_dir renames f p store).1).1 g
      ≡ (delete_from is_dir renames f p store).1 g
delete_from_twice is_dir renames f p store g =
    let Same : ℤ × Store → Type 0 = λ x. (delete_from is_dir renames f p x.1).1 g ≡ x.1 g in
    elim (Bool-cases (is_dir f)) [
      | inl folder ↦
          let one = delete_from_folder is_dir renames f p store folder in
          subst Same (sym one) (ap (λ x. x.1 g) one)
      | inr plain ↦ elim (Option-cases (store f)) [
        | inl missing ↦
            let one = delete_from_missing is_dir renames f p store plain missing in
            subst Same (sym one) (ap (λ x. x.1 g) one)
        | inr (content, found) ↦
            let one = delete_from_found is_dir renames f p store content plain found in
            elim (Bool-cases (renames f)) [
              | inr kept ↦ let same = rw kept at one in subst Same (sym same) (ap (λ x. x.1 g) same)
              | inl renamed ↦
                  let after = put f (deleted p content) store in
                  let there : after f ≡ some (deleted p content) = rw (str_eq_refl f) in
                  let two =
                    delete_from_found is_dir renames f p after (deleted p content) plain there in
                  subst Same (sym (rw renamed at one)) (
                    ap (λ x. x.1 g) (rw renamed at two)
                    ∙ ap (λ c. put f c after g) (deleted_twice p content)
                    ∙ put_twice f (deleted p content) store g)
            ]
      ]
    ]

same-Stores :
    (is_dir : Bytes → Bool) (a b : Store) (sys : System)
    → ((g : Bytes) → a g ≡ b g)
    → Stores is_dir a sys
    → Stores is_dir b sys
same-Stores is_dir a b sys same h = record {
  opens = λ g o. h.opens g o ∙ same g;
  folder = h.folder;
  file = λ g c o d e. h.file g c o d (same g ∙ e);
  tmp = h.tmp;
}

-- The words that a user enters for these requests: a path and a word each.
abbrev pub words_of : List (Bytes × Bytes) → List Bytes
words_of [] = []
words_of ((f, p) ∷ requests) = f ∷ p ∷ words_of requests

abbrev pub IsRequest : Bytes × Bytes → Type 0
IsRequest (f, p) = IsField f × IsField p × IsOther f

-- The answers to the requests in order, each with its path, and the store behind them.
abbrev pub delete_all :
    (Bytes → Bool) → (Bytes → Bool) → List (Bytes × Bytes) → Store → List (Bytes × ℤ) × Store
delete_all is_dir renames [] store = ([], store)
delete_all is_dir renames ((f, p) ∷ requests) store =
    let one = delete_from is_dir renames f p store in
    let rest = delete_all is_dir renames requests one.1 in ((f, one.0) ∷ rest.0, rest.1)

module _ (rename : Bytes × Bytes → System → Option System) (renames is_dir : Bytes → Bool)
    (laws : IsRename rename renames) (copies : ℕ → ℕ) where
  call_server-delete_from :
      (k : ℕ) (store : Store) (w : World) (f p r : Bytes)
      → IsRequest (f, p)
      → build_request f p ≡ some r
      → Stores is_dir store w.sys
      → let (answer, after) = delete_from is_dir renames f p store in
        (t : World) × (call_server (answer_datagram rename) (repeated k) r [] w
          ≡ some (record { result = reply answer; queue = []; server = t }))
        × Stores is_dir after t.sys
  call_server-delete_from k store w f p r (hf, hp, other) built h =
      let after = (delete_from is_dir renames f p store).1 in
      let (t, served, held) =
        answer_datagram-delete_from rename renames is_dir laws store w f p r hf hp other built h in
      call_server-repeated (answer_datagram rename) (λ d u. Stores is_dir after u.sys) k r
        (λ d u room hu.
          let (v, again, kept) =
            answer_datagram-delete_from rename renames is_dir laws after u f p r hf hp other built
              hu in
          (
            _,
            v,
            again,
            same-Stores is_dir _ after v.sys (delete_from_twice is_dir renames f p store) kept,
          ))
        k 0 _ w t served (omega arith) held

  -- The client shows for each request what the service counts in the file as the earlier requests have left it, or
  -- -1 for a directory and a path that is no file, and at the end the server's system holds the files without
  -- the words, however often each request was delivered: no request is given up and the client never
  -- waits in vain. A file to whose path `rename` fails stays as it was, while the client is shown the count all
  -- the same; whether `rename` succeeds depends on the path alone. The first copy of each request is
  -- answered and the answers to the others are lost; the files are texts that the server can go
  -- through, the fields fit and none is the path of the temporary file.
  pub converse-delete_all :
      (requests : List (Bytes × Bytes)) (n : ℕ) (store : Store) (w : World)
      → All IsRequest requests
      → Stores is_dir store w.sys
      → let (shown, after) = delete_all is_dir renames requests store in
        (t : World) × (converse rename (λ k. repeated (copies k)) n (words_of requests) [] w
          ≡ some (record { shown = shown; blocked = false; world = t }))
        × Stores is_dir after t.sys
  unfolding converse scan_word
  converse-delete_all [] n store w ok h = (w, refl, h)
  converse-delete_all ((f, p) ∷ requests) n store w (one, ok) h =
      let (hf, hp, other) = one in
      let (r, built, _, _) = parse_request-build_request f p hf hp in
      let (t, called, held) = call_server-delete_from (copies n) store w f p r one built h in
      let (u, rest, last) = converse-delete_all requests (n + 1) _ t ok held in
      (
        u,
        rw (lt→ltb (length f) line_length hf.fits, lt→ltb (length p) line_length hp.fits)
            (rw built (rw called (rw rest))),
        last,
      )
