-- ===== src/VotingClient/Tests.antt =====
-- Runs of the voting client beside its server, and the theorem at a concrete input.
use lab_reti_di_calcolatori.Base.{
  ℕ, ◌==◌, true, false, not, some, List, [], ◌∷◌, ◌>>=◌, ◌≡◌, refl, arith, length-replicate,
  replicate,
}
use lab_reti_di_calcolatori.Base.Int.{pos}
use lab_reti_di_calcolatori.Base.CString.{codes, str_eq}
use lab_reti_di_calcolatori.Voting.{boot}
use lab_reti_di_calcolatori.VotingClient.{Transport, Dialog, exited, feed_all, end_input, opened}
use lab_reti_di_calcolatori.VotingClient.Commands.{
  Command, rank, vote, mistaken, unknown, encode_all, no_votes, answers,
}
use lab_reti_di_calcolatori.VotingClient.Rankings.{feed_all-encode}
use lab_reti_di_calcolatori.VotingClient.Again.{end_input_again}

-- Call 1 is lost, and the result of call 4.
abbrev net : Transport
net = record {
  runs = λ n. not (n == 1);
  replies = λ n. not (n == 4);
  stack = λ n. replicate 256 (pos 7);
}

abbrev commands : List Command
commands =
    vote true (codes "candidato3")
    ∷ vote true (codes "candidato1")
    ∷ unknown (codes "x")
    ∷ rank
    ∷ mistaken (codes "v")
    ∷ vote false (codes "candidato2")
    ∷ rank
    ∷ rank
    ∷ []

one_ranking :
    answers net 0 no_votes commands ≡ ((codes "giudice2" ∷ codes "giudice1" ∷ []) ∷ [], exited 1)
unfolding str_eq lab_reti_di_calcolatori.Base.Int.◌+ℤ◌
one_ranking = refl

feed_all-encode_example :
    let out = answers net 0 no_votes commands in
    (e : Dialog) × (feed_all net (encode_all commands) (opened boot) ≡ some e)
    × (e.shown ≡ out.0)
    × (e.prompt ≡ out.1)
unfolding str_eq
feed_all-encode_example =
    feed_all-encode net commands (λ n. length-replicate 256 (pos 7))
      (
        omega arith,
        (
          omega arith,
          (
            (omega arith, refl, refl),
            (tt, ((omega arith, refl, refl), (omega arith, (tt, (tt, tt))))),
          ),
        ),
      )
      (omega arith)

end_input_again_run :
    feed_all net (codes "e" ∷ codes "a" ∷ codes "candidato3" ∷ codes "e" ∷ []) (opened boot)
      >>= end_input net
    ≡ feed_all net
        (codes "e"
          ∷ codes "a"
          ∷ codes "candidato3"
          ∷ codes "e"
          ∷ codes "a"
          ∷ codes "candidato3"
          ∷ [])
        (opened boot)
end_input_again_run = end_input_again net true (codes "candidato3") (opened boot) refl (omega arith)
