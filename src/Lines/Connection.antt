-- ===== src/Lines/Connection.antt =====
-- A connection of the line service, esercitazione_3/es2/serverTCP.c: the headers of the requests and
-- the loop of a child process; and the bytes that esercitazione_3/es2/clientTCP.c sends for a request.
use lab_reti_di_calcolatori.Base.{
  ℕ, zero, suc, ◌+◌, Bool, true, false, Option, none, some, List, [], ◌∷◌, ◌++◌, ◌>>=◌, length,
}
use lab_reti_di_calcolatori.Base.Int.{ℤ, pos}
use lab_reti_di_calcolatori.Base.CString.{Bytes}
use lab_reti_di_calcolatori.Base.Stream.{int_array, int_value, recv_into}
use lab_reti_di_calcolatori.Lines.{Recv, byte, waiting, answered, receive_file, serve_file}

-- What a client asks for: the array `nomeFile`, the number of the line, and the file.
pub record Ask : Type 0 where
  pub nome_file : Bytes
  pub riga : ℤ
  pub content : Bytes

-- What the client sends for it.
abbrev pub request_bytes : Ask → Bytes
request_bytes q = q.nome_file ++ int_array q.riga ++ int_array (pos (length q.content)) ++ q.content

-- The memory of `nomeFile`, `riga`, `dim` and `tmp`, and the number of the next header.
pub record Vars : Type 0 where
  pub nome_file : Bytes
  pub riga : Bytes
  pub dim : Bytes
  pub tmp : ℕ
  pub header : ℕ

-- What the child process has sent, and whether it has come to its end.
pub record Replies : Type 0 where
  pub sent : List Bytes
  pub closed : Bool

-- `tmp` behind a request.
abbrev pub tmp_behind : ℤ → ℤ → ℕ → List Recv → ℕ
tmp_behind riga dim tmp rs =
    elim (receive_file riga dim rs
      (record { i = pos 0; tmp = tmp; buff = []; line_counter = 0; sent = [] })) [
        | none ↦ tmp
        | some p ↦ p.0.tmp
      ]

-- The three calls that receive a header, of which call `k` of header `h` finds `arrived h k` bytes.
unfoldable pub receive_header : (ℕ → ℕ → ℕ) → Vars → List Recv → Option (Vars × List Recv)
receive_header arrived v rs = do
  (nome_file, rs1) ← recv_into (arrived v.header 0) v.nome_file rs
  (riga, rs2) ← recv_into (arrived v.header 1) v.riga rs1
  (dim, rs3) ← recv_into (arrived v.header 2) v.dim rs2
  some (record v { nome_file = nome_file; riga = riga; dim = dim; header = v.header + 1 }, rs3)

-- The loop over the requests, by the requests that may still come.
unfoldable pub serve_requests : ℕ → (ℕ → ℕ → ℕ) → Vars → List Recv → Option Replies
serve_requests zero arrived v rs = none
serve_requests (suc fuel) arrived v [] = some (record { sent = []; closed = false })
serve_requests (suc fuel) arrived v (byte c ∷ rs) = elim (receive_header arrived v (byte c ∷ rs)) [
  | none ↦ some (record { sent = []; closed = false })
  | some p ↦
      let riga = int_value p.0.riga in
      let dim = int_value p.0.dim in
      let next = λ (rest : List Recv).
        serve_requests fuel arrived (record p.0 { tmp = tmp_behind riga dim p.0.tmp p.1 }) rest in
      serve_file riga dim p.0.tmp p.1 >>= λ request. elim request [
        | waiting u ↦ some (record { sent = u.sent; closed = false })
        | answered sent rest ↦ do
          replies ← next rest
          some (record replies { sent = sent ++ replies.sent })
      ]
]
serve_requests (suc fuel) arrived v (_ ∷ rs) = some (record { sent = []; closed = true })

-- The child process: each request takes at least one of the events that come.
abbrev pub serve_connection : (ℕ → ℕ → ℕ) → Vars → List Recv → Option Replies
serve_connection arrived v rs = serve_requests (length rs + 1) arrived v rs
