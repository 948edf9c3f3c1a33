-- ===== src/VotingClient/Steps.antt =====
-- One command of the client, esercitazione9/client.c, at a time.
use lab_reti_di_calcolatori.Base.{
  ℕ, ◌+◌, ◌<◌, if◌then◌else◌, true, false, Bool, Option, some, List, [], ◌∷◌, ◌++◌, ◌≡◌, refl, ap,
  some_inj, Option-cases, Bool-cases, inl, inr, length, ◌>>=◌, lt→ltb,
}
use lab_reti_di_calcolatori.Base.CString.{Bytes, codes, str_eq, scan_word}
use lab_reti_di_calcolatori.Voting.{Server, classifica_giudici, esprimi_voto}
use lab_reti_di_calcolatori.VotingClient.{
  Transport, Dialog, at_mode, exited, nome_size, print_giudici, show, cast, feed, feed_all,
}
use lab_reti_di_calcolatori.VotingClient.Commands.{
  vote, mistaken, unknown, op_word, encode, IsCommand,
}

-- The client at its first `scanf`.
abbrev pub waiting : Option Bytes → Option Bytes → ℕ → List (List Bytes) → Server → Dialog
waiting op nome n shown s = record {
  prompt = at_mode;
  op = op;
  nome = nome;
  calls = n;
  shown = shown;
  server = s;
}

-- What a call of the vote leaves, where it comes through or not.
cast_lem :
    (net : Transport) (op name : Bytes) (d : Dialog) {t : Server}
    → (if net.runs d.calls
        then esprimi_voto (record { candidato = name; op = op }) d.server
        else some d.server)
      ≡ some t
    → cast net op name d ≡ some (record d { prompt = at_mode; calls = d.calls + 1; server = t })
unfolding cast
cast_lem net op name d h = elim (Bool-cases (net.runs d.calls)) [
  | inl runs ↦ rw (runs, rw runs at h)
  | inr lost ↦ rw lost (
      ap (λ t. some (record d { prompt = at_mode; calls = d.calls + 1; server = t }))
        (some_inj (rw lost at h)))
]

module _ (net : Transport) (op nome : Option Bytes) (n : ℕ) (shown : List (List Bytes))
    (s : Server) where
  -- What happens to a request for the ranking.
  pub feed-lost :
      net.runs n ≡ false
      → feed net (codes "c") (waiting op nome n shown s)
        ≡ some (record (waiting op nome (n + 1) shown s) { prompt = exited 1 })
  unfolding feed show scan_word str_eq
  feed-lost h = rw h

  pub feed-ranked :
      {giudici : List Bytes} {t : Server}
      → net.runs n ≡ true
      → classifica_giudici (net.stack n) s ≡ some (giudici, t)
      → feed net (codes "c") (waiting op nome n shown s)
        ≡ some (
            if net.replies n
            then waiting op nome (n + 1) (shown ++ print_giudici giudici ∷ []) t
            else record (waiting op nome (n + 1) shown t) { prompt = exited 1 })
  unfolding feed show scan_word str_eq
  feed-ranked h called = rw (h, called)

  pub feed_all-vote :
      (up : Bool) (name : Bytes) {t : Server}
      → length name < nome_size
      → (if net.runs n
          then esprimi_voto (record { candidato = name; op = op_word up }) s
          else some s)
        ≡ some t
      → feed_all net (encode (vote up name)) (waiting op nome n shown s)
        ≡ some (waiting (some (op_word up)) (some name) (n + 1) shown t)
  unfolding feed_all feed scan_word str_eq
  feed_all-vote true name fits called =
      rw (lt→ltb _ _ fits) (ap (λ o. o >>= (λ d. some d)) (cast_lem net (codes "a") name _ called))
  feed_all-vote false name fits called =
      rw (lt→ltb _ _ fits) (ap (λ o. o >>= (λ d. some d)) (cast_lem net (codes "s") name _ called))

  pub feed_all-mistaken :
      (word : Bytes)
      → IsCommand (mistaken word)
      → feed_all net (encode (mistaken word)) (waiting op nome n shown s)
        ≡ some (waiting (some word) nome n shown s)
  unfolding feed_all feed scan_word str_eq
  feed_all-mistaken word (fits, no_a, no_s) = rw (lt→ltb _ _ fits, no_a, no_s)

  pub feed_all-unknown :
      (word : Bytes)
      → IsCommand (unknown word)
      → feed_all net (encode (unknown word)) (waiting op nome n shown s)
        ≡ some (waiting op nome n shown s)
  unfolding feed_all feed scan_word
  feed_all-unknown word (fits, no_c, no_e) = rw (lt→ltb _ _ fits, no_c, no_e)

-- A client that has exited reads nothing.
pub feed_all_exited :
    (net : Transport) (words : List Bytes) (code : ℕ) (d : Dialog)
    → feed_all net words (record d { prompt = exited code })
      ≡ some (record d { prompt = exited code })
unfolding feed_all feed
feed_all_exited net [] code d = refl
feed_all_exited net (w ∷ words) code d = feed_all_exited net words code d

pub feed_all-append :
    (net : Transport) (xs ys : List Bytes) (d : Dialog)
    → feed_all net (xs ++ ys) d ≡ feed_all net xs d >>= feed_all net ys
unfolding feed_all
feed_all-append net [] ys d = refl
feed_all-append net (x ∷ xs) ys d = elim (Option-cases (feed net x d)) [
  | inl fault ↦ rw fault
  | inr (e, fed) ↦ rw fed (feed_all-append net xs ys e)
]
