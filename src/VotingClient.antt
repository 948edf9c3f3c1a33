-- ===== src/VotingClient.antt =====
-- The client of the voting server, esercitazione9/client.c, and the server that it calls. The model
-- begins where the connection has been made, and takes one word of the input at a time. What becomes
-- of a call on its way is a parameter.
pub mod Commands
pub mod Calls
pub mod Casting
pub mod Steps
pub mod Rankings
pub mod Again
mod Tests
use lab_reti_di_calcolatori.Base.{
  ℕ, ◌+◌, Bool, ◌||◌, Option, none, some, List, [], ◌∷◌, ◌++◌, ltb, if◌then◌else◌, ◌>>=◌, length,
}
use lab_reti_di_calcolatori.Base.Int.{ℤ}
use lab_reti_di_calcolatori.Base.CString.{Bytes, codes, str_eq, scan_word}
use lab_reti_di_calcolatori.Voting.{
  Server, InputEsprimiVoto, mark_null, classifica_giudici, esprimi_voto,
}

-- The sizes of `mode` and `op`, and that of `nome`.
abbrev pub op_size : ℕ
op_size = 10

abbrev pub nome_size : ℕ
nome_size = 30

-- Of the call with each number: whether the server runs it, whether its result comes back, and what
-- the stack of the server holds.
pub record Transport : Type 0 where
  pub runs : ℕ → Bool
  pub replies : ℕ → Bool
  pub stack : ℕ → List ℤ

-- The `scanf` that the client stands before, or that it has exited with this code.
pub data Prompt : Type 0 where
  at_mode : Prompt
  at_op : Prompt
  at_nome : Prompt
  exited : ℕ → Prompt

-- `op` and `nome` hold what was read last, and nothing defined before that. `shown` has the names
-- that each ranking has printed.
pub record Dialog : Type 0 where
  pub prompt : Prompt
  pub op : Option Bytes
  pub nome : Option Bytes
  pub calls : ℕ
  pub shown : List (List Bytes)
  pub server : Server

-- The loop that prints the names.
unfoldable pub print_giudici : List Bytes → List Bytes
print_giudici [] = []
print_giudici (nome ∷ giudici) =
    let rest = print_giudici giudici in if str_eq nome mark_null then rest else nome ∷ rest

module _ (net : Transport) where
  -- The branch of "c". The client exits where no result comes back.
  unfoldable pub show : Dialog → Option Dialog
  show d =
      let n = d.calls in
      let lost = λ (s : Server). record d { prompt = exited 1; calls = n + 1; server = s } in
      let ranked = do
        (giudici, s) ← classifica_giudici (net.stack n) d.server
        let got = record d {
          prompt = at_mode;
          calls = n + 1;
          shown = d.shown ++ print_giudici giudici ∷ [];
          server = s;
        }
        some (if net.replies n then got else lost s)
      in if net.runs n then ranked else some (lost d.server)

  -- The call of `esprimi_voto`, whose result the client does not look at.
  unfoldable pub cast : Bytes → Bytes → Dialog → Option Dialog
  cast op nome d =
      let n = d.calls in
      let called = do
        s ← esprimi_voto (record { candidato = nome; op = op }) d.server
        some (record d { prompt = at_mode; calls = n + 1; server = s })
      in if net.runs n then called else some (record d { prompt = at_mode; calls = n + 1 })

  -- The word after "e": "a" and "s" ask for a name.
  abbrev pub answer_op : Bytes → Dialog → Dialog
  answer_op op d = record d {
    op = some op;
    prompt = if str_eq op (codes "a") || str_eq op (codes "s") then at_nome else at_mode;
  }

  -- The next word of the input.
  unfoldable pub feed : Bytes → Dialog → Option Dialog
  feed word d = elim d.prompt [
    | at_mode ↦ do
      mode ← scan_word op_size word
      let ask = some (record d { prompt = at_op })
      if str_eq mode (codes "c") then show d else if str_eq mode (codes "e") then ask else some d
    | at_op ↦ do op ← scan_word op_size word; some (answer_op op d)
    | at_nome ↦ do
      nome ← scan_word nome_size word
      op ← d.op
      cast op nome (record d { nome = some nome })
    | exited code ↦ some d
  ]

  unfoldable pub feed_all : List Bytes → Dialog → Option Dialog
  feed_all [] d = some d
  feed_all (word ∷ words) d = feed word d >>= feed_all words

  -- A name is asked for at the end of the input: `nome` is what it was.
  unfoldable pub end_nome : Dialog → Option Dialog
  end_nome d = do op ← d.op; nome ← d.nome; cast op nome d

  -- The end of the input: `scanf` leaves its array as it is, and only that of `mode` is tested.
  unfoldable pub end_input : Dialog → Option Dialog
  end_input d = elim d.prompt [
    | at_mode ↦ some d
    | at_op ↦ do
      op ← d.op
      let last = end_nome (answer_op op d)
      if str_eq op (codes "a") || str_eq op (codes "s") then last else some (answer_op op d)
    | at_nome ↦ end_nome d
    | exited code ↦ some d
  ]

-- The client at its first prompt.
abbrev pub opened : Server → Dialog
opened s = record { prompt = at_mode; op = none; nome = none; calls = 0; shown = []; server = s }
