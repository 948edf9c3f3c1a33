-- ===== src/VotingClient/Commands.antt =====
-- What a user of the client, esercitazione9/client.c, asks for, as words, and what the answers are.
use lab_reti_di_calcolatori.Base.{
  ℕ, ◌+◌, ◌<◌, ◌≡◌, Bool, false, ◌&&◌, List, [], ◌∷◌, ◌++◌, if◌then◌else◌, length,
}
use lab_reti_di_calcolatori.Base.Int.{ℤ, pos, negsuc, ◌+ℤ◌, ltb_ℤ}
use lab_reti_di_calcolatori.Base.CString.{Bytes, codes, str_eq}
use lab_reti_di_calcolatori.VotingClient.{op_size, nome_size, Transport, Prompt, at_mode, exited}

-- The ranking, a vote more or less for a candidate, a vote with an unknown operation, or another
-- word.
pub data Command : Type 0 where
  rank : Command
  vote : Bool → Bytes → Command
  mistaken : Bytes → Command
  unknown : Bytes → Command

abbrev pub op_word : Bool → Bytes
op_word up = if up then codes "a" else codes "s"

abbrev pub encode : Command → List Bytes
encode rank = codes "c" ∷ []
encode (vote up nome) = codes "e" ∷ op_word up ∷ nome ∷ []
encode (mistaken op) = codes "e" ∷ op ∷ []
encode (unknown word) = word ∷ []

abbrev pub encode_all : List Command → List Bytes
encode_all [] = []
encode_all (c ∷ commands) = encode c ++ encode_all commands

-- The words fit the client's arrays, and are none of the words that mean something else.
abbrev pub IsCommand : Command → Type 0
IsCommand rank = Unit
IsCommand (vote up nome) = length nome < nome_size
IsCommand (mistaken op) =
    (length op < op_size) × (str_eq op (codes "a") ≡ false) × (str_eq op (codes "s") ≡ false)
IsCommand (unknown word) =
    (length word < op_size) × (str_eq word (codes "c") ≡ false) × (str_eq word (codes "e") ≡ false)

-- The votes of the three candidates.
pub record Votes : Type 0 where
  pub candidato1 : ℤ
  pub candidato2 : ℤ
  pub candidato3 : ℤ

abbrev pub no_votes : Votes
no_votes = record { candidato1 = pos 0; candidato2 = pos 0; candidato3 = pos 0 }

abbrev pub change : Bool → ℤ
change up = if up then pos 1 else negsuc 0

-- The votes `v` of a candidate, after a vote for `nome`.
abbrev pub counted : Bool → Bytes → Bytes → ℤ → ℤ
counted up nome candidato v = if str_eq candidato nome then v +ℤ change up else v

abbrev pub count_vote : Bool → Bytes → Votes → Votes
count_vote up nome v = record {
  candidato1 = counted up nome (codes "candidato1") v.candidato1;
  candidato2 = counted up nome (codes "candidato2") v.candidato2;
  candidato3 = counted up nome (codes "candidato3") v.candidato3;
}

-- The first judge has the first candidate's votes, the second those of the others.
abbrev pub ranking : Votes → List Bytes
ranking v =
    if ltb_ℤ v.candidato1 (v.candidato2 +ℤ v.candidato3)
    then codes "giudice2" ∷ codes "giudice1" ∷ []
    else codes "giudice1" ∷ codes "giudice2" ∷ []

-- The rankings that a user sees, and where the client stands then, by the number of the next call.
-- A vote counts where its call is run; the client exits at a ranking whose result does not come back.
abbrev pub answers : Transport → ℕ → Votes → List Command → List (List Bytes) × Prompt
answers net n v [] = ([], at_mode)
answers net n v (rank ∷ commands) =
    let rest = answers net (n + 1) v commands in
    if net.runs n && net.replies n then (ranking v ∷ rest.0, rest.1) else ([], exited 1)
answers net n v (vote up nome ∷ commands) =
    answers net (n + 1) (if net.runs n then count_vote up nome v else v) commands
answers net n v (mistaken op ∷ commands) = answers net n v commands
answers net n v (unknown word ∷ commands) = answers net n v commands
