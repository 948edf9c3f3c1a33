-- ===== src/Lines/Header.antt =====
-- The header of a request of the line service: the bytes that esercitazione_3/es2/clientTCP.c sends and
-- the calls of esercitazione_3/es2/serverTCP.c that receive them.
use lab_reti_di_calcolatori.Base.{
  ℕ, ◌+◌, ◌^◌, ◌≤◌, ◌<◌, some, List, ◌++◌, map, ◌≡◌, sym, ◌∙◌, arith, length,
}
use lab_reti_di_calcolatori.Base.Int.{pos, IsInt}
use lab_reti_di_calcolatori.Lines.{Recv, byte}
use lab_reti_di_calcolatori.Lines.Text.{lines, Fits}
use lab_reti_di_calcolatori.Base.Stream.{int_array, recv_into-map, bytes-append, length-int_array}
use lab_reti_di_calcolatori.Lines.Connection.{Ask, request_bytes, Vars, receive_header}

-- The arrays of the child process.
abbrev pub HasRoom : Vars → Type 0
HasRoom v = (length v.nome_file ≡ 256) × (length v.riga ≡ 4) × (length v.dim ≡ 4)

-- A request that the client can send and whose lines fit the server's array.
abbrev pub IsAsk : Ask → Type 0
IsAsk q =
    (length q.nome_file ≡ 256)
    × IsInt q.riga
    × (length q.content + 1 < 2 ^ 31)
    × Fits (lines q.content)

-- Each part of a header has arrived whole when it is received.
abbrev pub WholeHeaders : (ℕ → ℕ → ℕ) → Type 0
WholeHeaders arrived = (h k : ℕ) → 256 ≤ arrived h k

-- What the header of a request leaves.
abbrev pub headed : Vars → Ask → Vars
headed v q = record v {
  nome_file = q.nome_file;
  riga = int_array q.riga;
  dim = int_array (pos (length q.content));
  header = v.header + 1;
}

pub receive_header-request_bytes :
    (arrived : ℕ → ℕ → ℕ) (v : Vars) (q : Ask) (rest : List Recv)
    → WholeHeaders arrived
    → HasRoom v
    → IsAsk q
    → receive_header arrived v (map byte (request_bytes q) ++ rest)
      ≡ some (headed v q, map byte q.content ++ rest)
unfolding receive_header
receive_header-request_bytes arrived v q rest whole (name_room, riga_room, dim_room) ok =
    let riga = int_array q.riga in
    let dim = int_array (pos (length q.content)) in
    let whole0 = whole v.header 0 in
    let whole1 = whole v.header 1 in
    let whole2 = whole v.header 2 in
    rw (
      bytes-append (q.nome_file ++ riga ++ dim) q.content rest,
      bytes-append (q.nome_file ++ riga) dim (map byte q.content ++ rest),
      bytes-append q.nome_file riga (map byte dim ++ (map byte q.content ++ rest)),
      recv_into-map (arrived v.header 0) v.nome_file q.nome_file
          (map byte riga ++ (map byte dim ++ (map byte q.content ++ rest))) (ok.0 ∙ sym name_room)
          (omega arith) (omega arith),
      recv_into-map (arrived v.header 1) v.riga riga (map byte dim ++ (map byte q.content ++ rest))
          (length-int_array q.riga ∙ sym riga_room) (omega arith) (omega arith),
      recv_into-map (arrived v.header 2) v.dim dim (map byte q.content ++ rest) (sym dim_room)
          (omega arith) (omega arith),
    )
