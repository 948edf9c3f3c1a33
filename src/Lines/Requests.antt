-- ===== src/Lines/Requests.antt =====
-- The requests of a client of the line service, esercitazione_3/es2/clientTCP.c, and what the child
-- process of esercitazione_3/es2/serverTCP.c sends back.
use lab_reti_di_calcolatori.Base.{
  ℕ, zero, suc, ◌≤◌, ◌<◌, true, some, List, [], ◌∷◌, ◌++◌, map, ◌≡◌, refl, arith, length,
  length-append, length-map, All,
}
use lab_reti_di_calcolatori.Base.Int.{pos}
use lab_reti_di_calcolatori.Base.CString.{Bytes}
use lab_reti_di_calcolatori.Lines.{Recv, byte, eof, answered, serve_file}
use lab_reti_di_calcolatori.Lines.Text.{lines, kept}
use lab_reti_di_calcolatori.Lines.Transfer.{serve_file-kept}
use lab_reti_di_calcolatori.Lines.Connection.{
  Ask, request_bytes, Vars, Replies, receive_header, serve_requests, serve_connection,
}
use lab_reti_di_calcolatori.Base.Stream.{
  int_array, int_value, int_value-int_array, bytes-append, length-int_array,
}
use lab_reti_di_calcolatori.Lines.Header.{
  receive_header-request_bytes, headed, HasRoom, IsAsk, WholeHeaders,
}

abbrev pub requests_bytes : List Ask → Bytes
requests_bytes [] = []
requests_bytes (q ∷ qs) = request_bytes q ++ requests_bytes qs

-- The files without the lines that the requests name, line by line.
abbrev pub answers : List Ask → List Bytes
answers [] = []
answers (q ∷ qs) = kept q.riga 1 (lines q.content) ++ answers qs

serve_requests-next :
    (fuel : ℕ) (arrived : ℕ → ℕ → ℕ) (v : Vars) (xs : Bytes) (behind rest : List Recv)
    (p : Vars × List Recv) (sent : List Bytes) (replies : Replies)
    → 0 < length xs
    → receive_header arrived v (map byte xs ++ behind) ≡ some p
    → serve_file (int_value p.0.riga) (int_value p.0.dim) p.0.tmp p.1 ≡ some (answered sent rest)
    → ((tmp : ℕ) → serve_requests fuel arrived (record p.0 { tmp = tmp }) rest ≡ some replies)
    → serve_requests (suc fuel) arrived v (map byte xs ++ behind)
      ≡ some (record replies { sent = sent ++ replies.sent })
unfolding serve_requests
serve_requests-next fuel arrived v [] behind rest p sent replies some_byte header request later =
    absurd (omega arith)
serve_requests-next fuel arrived v (c ∷ xs) behind rest p sent replies some_byte header request
      later =
    rw (header, serve_requests) (rw request (rw (later _)))

length-request_bytes : (q : Ask) → length q.nome_file ≤ length (request_bytes q)
length-request_bytes q = omega (
  arith,
  length-append (q.nome_file ++ int_array q.riga ++ int_array (pos (length q.content))) q.content,
  length-append (q.nome_file ++ int_array q.riga) (int_array (pos (length q.content))),
  length-append q.nome_file (int_array q.riga),
)

serve_request :
    (fuel : ℕ) (arrived : ℕ → ℕ → ℕ) (v : Vars) (q : Ask) (rest : List Recv) (replies : Replies)
    → WholeHeaders arrived
    → HasRoom v
    → IsAsk q
    → ((tmp : ℕ)
        → serve_requests fuel arrived (record (headed v q) { tmp = tmp }) rest ≡ some replies)
    → serve_requests (suc fuel) arrived v (map byte (request_bytes q) ++ rest)
      ≡ some (record replies { sent = kept q.riga 1 (lines q.content) ++ replies.sent })
serve_request fuel arrived v q rest replies whole room ok later =
    let (named, int, small, fits) = ok in
    let served = serve_file-kept q.riga v.tmp q.content rest small fits in
    let dim_eq = int_value-int_array (pos (length q.content)) (omega arith) in
    serve_requests-next fuel arrived v (request_bytes q) rest rest
      (headed v q, map byte q.content ++ rest) (kept q.riga 1 (lines q.content)) replies
      (omega (arith, length-request_bytes q, named))
      (receive_header-request_bytes arrived v q rest whole room ok)
      (rw (int_value-int_array q.riga int, dim_eq) served) later

serve_requests-answers :
    (arrived : ℕ → ℕ → ℕ) (qs : List Ask) (fuel : ℕ) (v : Vars)
    → WholeHeaders arrived
    → HasRoom v
    → All IsAsk qs
    → length qs < fuel
    → serve_requests fuel arrived v (map byte (requests_bytes qs) ++ eof ∷ [])
      ≡ some (record { sent = answers qs; closed = true })
unfolding serve_requests
serve_requests-answers arrived qs zero v whole room ok enough = absurd (omega arith)
serve_requests-answers arrived [] (suc fuel) v whole room ok enough = refl
serve_requests-answers arrived (q ∷ qs) (suc fuel) v whole room ok enough =
    rw (bytes-append (request_bytes q) (requests_bytes qs) (eof ∷ [])) (
      serve_request fuel arrived v q _ _ whole room ok.0 (λ tmp.
        serve_requests-answers arrived qs fuel (record (headed v q) { tmp = tmp }) whole
          (ok.0.0, length-int_array q.riga, refl) ok.1 (omega arith)))

length-requests_bytes : (qs : List Ask) → All IsAsk qs → length qs ≤ length (requests_bytes qs)
length-requests_bytes [] ok = omega arith
length-requests_bytes (q ∷ qs) ok = omega (
  arith,
  length-requests_bytes qs ok.1,
  length-append (request_bytes q) (requests_bytes qs),
  length-request_bytes q,
  ok.0.0,
)

pub serve_connection-answers :
    (arrived : ℕ → ℕ → ℕ) (v : Vars) (qs : List Ask)
    → WholeHeaders arrived
    → HasRoom v
    → All IsAsk qs
    → serve_connection arrived v (map byte (requests_bytes qs) ++ eof ∷ [])
      ≡ some (record { sent = answers qs; closed = true })
serve_connection-answers arrived v qs whole room ok =
    serve_requests-answers arrived qs _ v whole room ok (
      omega (
        arith,
        length-requests_bytes qs ok,
        length-append (map byte (requests_bytes qs)) (eof ∷ []),
        length-map byte (requests_bytes qs),
      ))
