-- ===== src/LineClient.antt =====
-- The client of the line service, esercitazione_3/es2/clientTCP.c: the dialogue with the user, the requests that it
-- sends for files of its own, and the files that it puts in their place. The model begins where the connection has
-- been made, takes one word of the input at a time, and has what the calls of `recv` give as a list. The
-- dialogue is that of esercitazione_3/es2/clientTCPselect.c too, which has another loop over a file.
pub mod Loop
pub mod Texts
pub mod Edits
pub mod Dialogue
pub mod Rewrites
mod Tests
use lab_reti_di_calcolatori.Base.{
  ℕ, ◌+◌, Bool, true, false, not, Option, none, some, List, [], ◌∷◌, ◌++◌, ◌==◌, if◌then◌else◌,
  ◌>>=◌, length, drop,
}
use lab_reti_di_calcolatori.Base.Int.{ℤ, count_up}
use lab_reti_di_calcolatori.Base.CString.{Bytes, read_string, scan_word, named}
use lab_reti_di_calcolatori.Base.Array.{stored}
use lab_reti_di_calcolatori.Lines.{buff_size, is_riga}
use lab_reti_di_calcolatori.Lines.Connection.{Ask}

-- The client's files by their paths.
abbrev pub Files : Type 0
Files = Bytes → Option Bytes

-- What is not the program's: what `scanf("%d")` makes of a word, the number if there is one and what it leaves of
-- the word; by the number of the request, whether its header can be sent and the temporary file created; and what
-- a renaming makes of the files, `none` where it fails.
pub record Surroundings : Type 0 where
  pub scan_int : Bytes → Option ℤ × Bytes
  pub sends : ℕ → Bool
  pub creates : ℕ → Bool
  pub rename : Bytes × Bytes → Files → Option Files

-- The `scanf` that the client stands before: for a name, for a number, or for the word that was no number; or it
-- waits in `recv` for ever, or has exited with this code.
pub data Prompt : Type 0 where
  at_name : Prompt
  at_riga : Prompt
  at_junk : Prompt
  waits : Prompt
  exited : ℕ → Prompt

-- `nome` is the word in the array `nome_file`. `asked` is what has been sent whole, one element to a file, and `chunks`
-- what the calls of `recv` will give. `buff` is the array that they fill. `tmp` is what the temporary file holds: it is not cleared when it is opened.
pub record Desk (C : Type 0) : Type 0 where
  pub prompt : Prompt
  pub nome : Bytes
  pub nome_file : Bytes
  pub requests : ℕ
  pub asked : List Ask
  pub chunks : List C
  pub files : Files
  pub buff : Bytes
  pub tmp : Bytes

-- What the loop over a file leaves: what it has written, the chunks that it has not received, the array, and
-- whether it waits for a chunk for ever.
pub record Sent (C : Type 0) : Type 0 where
  pub written : Bytes
  pub later : List C
  pub buff : Bytes
  pub stuck : Bool

-- The `recv` behind a newline into the front of the array, the `printf` of the array as a string, which is
-- undefined without a zero byte in it, and the rest of the loop.
abbrev pub receive_line :
    Bytes → List Bytes → (Bytes → List Bytes → Option (Sent Bytes)) → Option (Sent Bytes)
receive_line buff [] next = some (record { written = []; later = []; buff = buff; stuck = true })
receive_line buff (chunk ∷ chunks) next = do
  line ← read_string (stored chunk buff)
  rest ← next (stored chunk buff) chunks
  some (record rest { written = chunk ++ rest.written })

-- The loop over the bytes of the file, from `countLinee`.
unfoldable pub send_file : ℤ → Bytes → ℕ → Bytes → List Bytes → Option (Sent Bytes)
send_file riga [] n buff chunks =
    some (record { written = []; later = chunks; buff = buff; stuck = false })
send_file riga (c ∷ content) n buff chunks =
    let newline = do
      m ← count_up n
      if not (is_riga riga m)
          then receive_line buff chunks (send_file riga content m)
          else send_file riga content m buff chunks
    in if c == b'\n' then newline else send_file riga content n buff chunks

-- The loop from its start.
abbrev pub send_whole : ℤ → Bytes → Bytes → List Bytes → Option (Sent Bytes)
send_whole riga content buff chunks = send_file riga content 0 buff chunks

-- The dialogue, by what one element of the input from the server is, and the loop over a file.
module _ {C : Type 0} (loop : ℤ → Bytes → Bytes → List C → Option (Sent C))
    (env : Surroundings) where
  -- Behind the loop: what was written stands at the start of the temporary file, which takes the file's name.
  unfoldable pub replace_file : Sent C → Desk C → Desk C
  replace_file l d =
      let tmp = l.written ++ drop (length l.written) d.tmp in
      let renamed : Desk C = elim (env.rename (d.nome, tmp) d.files) [
        | none ↦ record d { prompt = at_name; chunks = l.later; tmp = tmp }
        | some files ↦ record d { prompt = at_name; chunks = l.later; files = files; tmp = [] }
      ] in
      if l.stuck then record d { prompt = waits; chunks = []; tmp = tmp } else renamed

  -- A request for the line `riga` of a file with this content, with `buff[0]='\0'` before the loop.
  unfoldable pub request_file : ℤ → Bytes → Desk C → Option (Desk C)
  request_file riga content d =
      let k = d.requests in
      let ask : Ask = record { nome_file = d.nome_file; riga = riga; content = content } in
      let sent : Desk C = record d { requests = k + 1; asked = d.asked ++ ask ∷ [] } in
      let answered = do
        l ← loop riga content (stored (0 ∷ []) d.buff) d.chunks
        some (replace_file l (record sent { buff = l.buff }))
      in if not (env.sends k)
        then some (record d { prompt = exited 4 })
        else if not (env.creates k)
        then some (record d { prompt = exited 5 })
        else answered

  unfoldable pub enter_name : Bytes → Desk C → Option (Desk C)
  enter_name word d = do
    nome ← scan_word 256 word
    some (record d { prompt = at_riga; nome = nome; nome_file = named nome d.nome_file })

  -- The number of the line has been read, and this is left of its word.
  unfoldable pub enter_riga : ℤ → Desk C → Option (Desk C)
  enter_riga riga d = elim (d.files d.nome) [
    | none ↦ some (record d { prompt = at_name })
    | some content ↦ request_file riga content d
  ]

  -- `scanf("%s", buff)` of what is no number.
  unfoldable pub skip_junk : Bytes → Desk C → Option (Desk C)
  skip_junk word d = do
    junk ← scan_word buff_size word
    some (record d { prompt = at_riga; buff = named junk d.buff })

  -- What a number leaves of its word is the next name, if the client has come to ask for one.
  abbrev pub rest_of_number : Bytes → Desk C → Option (Desk C)
  rest_of_number [] d = some d
  rest_of_number (c ∷ rest) d = elim d.prompt [
    | at_name ↦ enter_name (c ∷ rest) d
    | at_riga ↦ some d
    | at_junk ↦ some d
    | waits ↦ some d
    | exited code ↦ some d
  ]

  -- What is left of a word that is no number, or the next word where nothing is left.
  abbrev pub rest_of_junk : Bytes → Desk C → Option (Desk C)
  rest_of_junk [] d = some (record d { prompt = at_junk })
  rest_of_junk (c ∷ rest) d = skip_junk (c ∷ rest) d

  unfoldable pub read_riga : Bytes → Desk C → Option (Desk C)
  read_riga word d =
      let (riga, rest) = env.scan_int word in
      elim riga [ none ↦ rest_of_junk rest d | some z ↦ enter_riga z d >>= rest_of_number rest ]

  -- The next word of the input.
  unfoldable pub feed : Bytes → Desk C → Option (Desk C)
  feed word d = elim d.prompt [
    | at_name ↦ enter_name word d
    | at_riga ↦ read_riga word d
    | at_junk ↦ skip_junk word d
    | waits ↦ some d
    | exited code ↦ some d
  ]

  unfoldable pub feed_all : List Bytes → Desk C → Option (Desk C)
  feed_all [] d = some d
  feed_all (word ∷ words) d = feed word d >>= feed_all words

-- The client at its first prompt, with what `nomeFile` and `buff` hold and the chunks that will come.
abbrev pub opened : {C : Type 0} → Bytes → Bytes → Files → List C → Desk C
opened array buff files chunks = record {
  prompt = at_name;
  nome = [];
  nome_file = array;
  requests = 0;
  asked = [];
  chunks = chunks;
  files = files;
  buff = buff;
  tmp = [];
}
