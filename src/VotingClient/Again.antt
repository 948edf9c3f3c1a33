-- ===== src/VotingClient/Again.antt =====
-- The end of the input of the client, esercitazione9/client.c, in the middle of a command.
use lab_reti_di_calcolatori.Base.{
  ◌+◌, ◌<◌, true, false, Bool, Option, none, some, [], ◌∷◌, ◌++◌, ◌≡◌, refl, sym, ◌⊎◌, Option-cases,
  Bool-cases, inl, inr, length, ◌>>=◌, lt→ltb,
}
use lab_reti_di_calcolatori.Base.CString.{Bytes, codes, str_eq, scan_word}
use lab_reti_di_calcolatori.Voting.{Server, esprimi_voto}
use lab_reti_di_calcolatori.VotingClient.{
  Transport, Dialog, at_mode, at_nome, nome_size, cast, feed, feed_all, end_nome, end_input,
}
use lab_reti_di_calcolatori.VotingClient.Commands.{op_word, vote, encode}
use lab_reti_di_calcolatori.VotingClient.Steps.{feed_all-append}

-- What the call of a vote changes.
abbrev after_cast : Dialog → Server → Dialog
after_cast d t = record d { prompt = at_mode; calls = d.calls + 1; server = t }

cast_cases :
    (net : Transport) (op name : Bytes) (d : Dialog)
    → (cast net op name d ≡ none) ⊎ ((t : Server) × (cast net op name d ≡ some (after_cast d t)))
unfolding cast
cast_cases net op name d = elim (Bool-cases (net.runs d.calls)) [
  | inl runs ↦ elim (Option-cases (esprimi_voto (record { candidato = name; op = op }) d.server)) [
    | inl fault ↦ rw (runs, fault) (inl refl)
    | inr (t, called) ↦ rw (runs, called) (inr (t, refl))
  ]
  | inr lost ↦ rw lost (inr (d.server, refl))
]

bind-some : (m : Option Dialog) → m >>= (λ d. some d) ≡ m
bind-some none = refl
bind-some (some d) = refl

-- The client behind a vote.
abbrev voted : Bool → Bytes → Dialog → Server → Dialog
voted up name d t = after_cast (record d { op = some (op_word up); nome = some name }) t

end_behind_e :
    (net : Transport) (up : Bool) (name : Bytes) (d : Dialog) (t : Server)
    → length name < nome_size
    → feed_all net (codes "e" ∷ []) (voted up name d t) >>= end_input net
      ≡ feed_all net (encode (vote up name)) (voted up name d t)
unfolding feed_all feed scan_word str_eq end_nome end_input
end_behind_e net true name d t fits = rw (lt→ltb _ _ fits) (sym (bind-some _))
end_behind_e net false name d t fits = rw (lt→ltb _ _ fits) (sym (bind-some _))

feed_all-vote :
    (net : Transport) (up : Bool) (name : Bytes) (d : Dialog)
    → d.prompt ≡ at_mode
    → length name < nome_size
    → feed_all net (encode (vote up name)) d
      ≡ cast net
          (op_word up)
          name
          (record d { prompt = at_nome; op = some (op_word up); nome = some name })
unfolding feed_all feed scan_word str_eq
feed_all-vote net true name d waits fits = rw (waits, lt→ltb _ _ fits) (bind-some _)
feed_all-vote net false name d waits fits = rw (waits, lt→ltb _ _ fits) (bind-some _)

-- Where the input ends behind the "e" that follows a vote, the client casts that vote once more, as
-- if the user had entered it twice. The name fits its array.
pub end_input_again :
    (net : Transport) (up : Bool) (name : Bytes) (d : Dialog)
    → d.prompt ≡ at_mode
    → length name < nome_size
    → feed_all net (encode (vote up name) ++ codes "e" ∷ []) d >>= end_input net
      ≡ feed_all net (encode (vote up name) ++ encode (vote up name)) d
end_input_again net up name d waits fits =
    let words = encode (vote up name) in
    let entered = feed_all-vote net up name d waits fits in
    rw (feed_all-append net words (codes "e" ∷ []) d, feed_all-append net words words d, entered)
      (elim (cast_cases net (op_word up) name
        (record d { prompt = at_nome; op = some (op_word up); nome = some name })) [
          | inl fault ↦ rw fault
          | inr (t, called) ↦ rw called (end_behind_e net up name d t fits)
        ])
