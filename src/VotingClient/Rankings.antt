-- ===== src/VotingClient/Rankings.antt =====
-- The rankings that the client, esercitazione9/client.c, shows.
use lab_reti_di_calcolatori.Base.{
  ℕ, ◌+◌, ◌≤◌, if◌then◌else◌, Bool, Option, none, some, List, [], ◌∷◌, ◌++◌, ◌≡◌, refl, sym, ◌∙◌,
  arith, Bool-cases, inl, inr, length, All, append_assoc, append-nil,
}
use lab_reti_di_calcolatori.Base.CString.{Bytes, codes}
use lab_reti_di_calcolatori.Voting.{Server, boot, esprimi_voto}
use lab_reti_di_calcolatori.Voting.Collect.{max_voto}
use lab_reti_di_calcolatori.VotingClient.{Transport, Dialog, Prompt, exited, feed, feed_all, opened}
use lab_reti_di_calcolatori.VotingClient.Commands.{
  Command, rank, vote, mistaken, unknown, op_word, encode, encode_all, IsCommand, Votes, no_votes,
  count_vote, ranking, answers,
}
use lab_reti_di_calcolatori.VotingClient.Calls.{At, boot-At, classifica_giudici-At}
use lab_reti_di_calcolatori.VotingClient.Casting.{esprimi_voto-At}
use lab_reti_di_calcolatori.VotingClient.Steps.{
  waiting, feed-lost, feed-ranked, feed_all-vote, feed_all-mistaken, feed_all-unknown,
  feed_all_exited, feed_all-append,
}

-- The client ends with these rankings behind those that it had shown.
abbrev Answers :
    Transport → List Bytes → Dialog → List (List Bytes) → List (List Bytes) × Prompt → Type 0
Answers net words d shown (more, prompt) =
    (e : Dialog) × (feed_all net words d ≡ some e) × (e.shown ≡ shown ++ more) × (e.prompt ≡ prompt)

Answers-append :
    (net : Transport) (xs ys : List Bytes) (d e : Dialog) (shown : List (List Bytes))
    (out : List (List Bytes) × Prompt)
    → feed_all net xs d ≡ some e
    → Answers net ys e shown out
    → Answers net (xs ++ ys) d shown out
Answers-append net xs ys d e shown out fed (f, rest, shows, stands) =
    (f, feed_all-append net xs ys d ∙ rw fed rest, shows, stands)

-- The client exits at a ranking.
Answers-exited :
    (net : Transport) (words : List Bytes) (d e : Dialog)
    → feed net (codes "c") d ≡ some (record e { prompt = exited 1 })
    → Answers net (codes "c" ∷ words) d e.shown ([], exited 1)
unfolding feed_all
Answers-exited net words d e fed = (
  record e { prompt = exited 1 },
  rw fed (feed_all_exited net words 1 e),
  sym (append-nil e.shown),
  refl,
)

-- The client shows a ranking and goes on.
Answers-shown :
    (net : Transport) (words : List Bytes) (d e : Dialog) (shown : List (List Bytes))
    (giudici : List Bytes) (out : List (List Bytes) × Prompt)
    → feed net (codes "c") d ≡ some e
    → Answers net words e (shown ++ giudici ∷ []) out
    → Answers net (codes "c" ∷ words) d shown (giudici ∷ out.0, out.1)
unfolding feed_all
Answers-shown net words d e shown giudici out fed (f, rest, shows, stands) =
    (f, rw fed rest, shows ∙ append_assoc shown (giudici ∷ []) out.0, stands)

module _ (net : Transport) (stacks : (n : ℕ) → length (net.stack n) ≡ 256) where
  -- The server behind a call of the vote.
  vote_called :
      (up : Bool) (name : Bytes) (b : ℕ) (v : Votes) (n : ℕ) (s : Server)
      → b ≤ max_voto
      → At b v s
      → (t : Server) × ((if net.runs n
            then esprimi_voto (record { candidato = name; op = op_word up }) s
            else some s)
          ≡ some t)
        × At (b + 1) (if net.runs n then count_vote up name v else v) t
  vote_called up name b v n s le at = elim (Bool-cases (net.runs n)) [
    | inl runs ↦ rw runs (esprimi_voto-At up name b v s le at)
    | inr lost ↦ rw lost (
      s,
      refl,
      record {
        res = at.res;
        names = at.names;
        ready = at.ready;
        small = let small = at.small in omega arith;
      },
    )
  ]

  Answers-encode_all :
      (commands : List Command) (b : ℕ) (v : Votes) (op nome : Option Bytes) (n : ℕ)
      (shown : List (List Bytes)) (s : Server)
      → All IsCommand commands
      → b + length commands ≤ max_voto
      → At b v s
      → Answers net
          (encode_all commands)
          (waiting op nome n shown s)
          shown
          (answers net n v commands)
  Answers-encode_all [] b v op nome n shown s ok small at =
      (waiting op nome n shown s, unfold feed_all in refl, sym (append-nil shown), refl)
  Answers-encode_all (rank ∷ commands) b v op nome n shown s ok small at =
      elim (Bool-cases (net.runs n)) [
        | inr lost ↦ rw lost (
            Answers-exited net (encode_all commands) _ (waiting op nome (n + 1) shown s)
              (feed-lost net op nome n shown s lost))
        | inl runs ↦
            let (giudici, t, called, prints, later) =
              classifica_giudici-At (net.stack n) b v s (stacks n) (omega arith) at in
            let fed = feed-ranked net op nome n shown s runs called in
            elim (Bool-cases (net.replies n)) [
              | inr lost ↦
                  rw (runs, lost)
                    (Answers-exited net (encode_all commands) _ (waiting op nome (n + 1) shown t)
                      (rw lost at fed))
              | inl replies ↦
                  rw (runs, replies)
                    (Answers-shown net (encode_all commands) _ _ shown (ranking v) _
                      (rw (replies, prints) at fed)
                      (Answers-encode_all commands b v op nome (n + 1) _ t ok.1 (omega arith)
                        later))
            ]
      ]
  Answers-encode_all (vote up name ∷ commands) b v op nome n shown s ok small at =
      let (t, called, later) = vote_called up name b v n s (omega arith) at in
      Answers-append net (encode (vote up name)) _ _ _ shown
        (answers net (n + 1) (if net.runs n then count_vote up name v else v) commands)
        (feed_all-vote net op nome n shown s up name ok.0 called)
        (Answers-encode_all commands (b + 1) _ _ _ (n + 1) shown t ok.1 (omega arith) later)
  Answers-encode_all (mistaken word ∷ commands) b v op nome n shown s ok small at =
      Answers-append net (encode (mistaken word)) _ _ _ shown (answers net n v commands)
        (feed_all-mistaken net op nome n shown s word ok.0)
        (Answers-encode_all commands b v (some word) nome n shown s ok.1 (omega arith) at)
  Answers-encode_all (unknown word ∷ commands) b v op nome n shown s ok small at =
      Answers-append net (encode (unknown word)) _ _ _ shown (answers net n v commands)
        (feed_all-unknown net op nome n shown s word ok.0)
        (Answers-encode_all commands b v op nome n shown s ok.1 (omega arith) at)

-- Whatever becomes of the calls on their way, the client that starts beside a fresh server reads
-- every command without a fault and shows the rankings of the votes whose calls the server has run:
-- of each ranking the second judge comes first exactly if the votes of the last two candidates are
-- more than those of the first. It waits for a command then, or has exited with 1 at the first ranking
-- whose result did not come back. The words fit its arrays and are at most 2^22 commands, and the
-- stack of the server holds 256 numbers.
pub feed_all-encode :
    (net : Transport) (commands : List Command)
    → ((n : ℕ) → length (net.stack n) ≡ 256)
    → All IsCommand commands
    → length commands ≤ max_voto
    → let out = answers net 0 no_votes commands in
      (e : Dialog) × (feed_all net (encode_all commands) (opened boot) ≡ some e)
      × (e.shown ≡ out.0)
      × (e.prompt ≡ out.1)
feed_all-encode net commands stacks ok small =
    Answers-encode_all net stacks commands 0 no_votes none none 0 [] boot ok (omega arith) boot-At
