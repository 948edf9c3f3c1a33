-- ===== src/Words/Request.antt =====
-- The request: what the client builds, the server takes apart.
use lab_reti_di_calcolatori.Base.{
  ℕ, suc, ◌-◌, ◌<◌, true, ◌≢◌, some, none, [], ◌∷◌, ◌++◌, ◌≡◌, refl, ap, arith, All-append, length,
  length-append, length-replicate, replicate, append-nil, lt→ltb, ◌==◌,
}
use lab_reti_di_calcolatori.Base.CString.{
  Bytes, Without, token, strtok, read_string, read_string-terminated,
}
use lab_reti_di_calcolatori.Words.{line_length, request_length, parse_request, build_request}

token_found :
    (d : ℕ) (w rest : Bytes) → Without d w → (d == d) ≡ true → token d (w ++ d ∷ rest) ≡ (w, rest)
unfolding token
token_found d [] rest h e = rw e
token_found d (c ∷ w) rest h e = rw (h.0, token_found d w rest h.1 e)

token_last : (d : ℕ) (w : Bytes) → Without d w → token d w ≡ (w, [])
unfolding token
token_last d [] h = refl
token_last d (c ∷ w) h = rw (h.0, token_last d w h.1)

strtok_found :
    (d c : ℕ) (w rest : Bytes)
    → Without d (c ∷ w)
    → (d == d) ≡ true
    → strtok d (c ∷ (w ++ d ∷ rest)) ≡ some (c ∷ w, rest)
unfolding strtok
strtok_found d c w rest h e = rw (h.0, strtok) (ap some (token_found d (c ∷ w) rest h e))

strtok_last : (d c : ℕ) (w : Bytes) → Without d (c ∷ w) → strtok d (c ∷ w) ≡ some (c ∷ w, [])
unfolding strtok
strtok_last d c w h = rw (h.0, strtok) (ap some (token_last d (c ∷ w) h))

-- A name that the user types: not empty, with room in an array of 256 bytes, and with neither a
-- zero byte nor the separator of the request.
pub record IsField (s : Bytes) : Type 0 where
  pub some_bytes : s ≢ []
  pub fits : length s < line_length
  pub no_zero : Without 0 s
  pub no_separator : Without b';' s

parse_fields :
    (f p : Bytes)
    → IsField f
    → IsField p
    → (strtok b';' (f ++ b';' ∷ p) ≡ some (f, p)) × (strtok b';' p ≡ some (p, []))
parse_fields [] p hf hp = absurd (hf.some_bytes refl)
parse_fields (c ∷ f) [] hf hp = absurd (hp.some_bytes refl)
parse_fields (c ∷ f) (d ∷ p) hf hp =
    (strtok_found b';' c f (d ∷ p) hf.no_separator refl, strtok_last b';' d p hp.no_separator)

read_padded : (s : Bytes) (k : ℕ) → Without 0 s → read_string (s ++ replicate (suc k) 0) ≡ some s
read_padded s k h = read_string-terminated s (replicate k 0) h

-- For two names without the separator the request fills its array of 512 bytes exactly, and the
-- server reads the two names back from it.
pub parse_request-build_request :
    (f p : Bytes)
    → IsField f
    → IsField p
    → (r : Bytes) × (build_request f p ≡ some r)
      × (length r ≡ request_length)
      × (parse_request r ≡ some (f, p))
unfolding build_request parse_request
parse_request-build_request f p hf hp =
    let s = f ++ (b';' ∷ p) in
    let short : length s < request_length =
      omega (arith, length-append f (b';' ∷ p), hf.fits, hp.fits) in
    let r = s ++ replicate (request_length - length s) 0 in
    let full : length r ≡ request_length = omega (
      arith,
      length-append s (replicate (request_length - length s) 0),
      length-replicate {A = ℕ} (request_length - length s) 0,
    ) in
    let pad : request_length - length s ≡ suc (request_length - length s - 1) = omega arith in
    let clean : Without 0 s = All-append _ f (b';' ∷ p) hf.no_zero (refl, hp.no_zero) in
    let read : read_string (r ++ replicate (request_length - length r) 0) ≡ some s =
      rw (full, append-nil r) (rw pad (read_padded s (request_length - length s - 1) clean)) in
    let fields = parse_fields f p hf hp in
    (r, rw (lt→ltb _ _ short), full, rw read (rw fields.0 (rw fields.1)))

read_unpadded :
    (s : Bytes)
    → Without 0 s
    → length s < request_length
    → read_string (s ++ replicate (request_length - length s) 0) ≡ some s
read_unpadded s z l =
    let pad : request_length - length s ≡ suc (request_length - length s - 1) = omega arith in
    rw pad (read_padded s (request_length - length s - 1) z)

-- A request without the separator, such as one of another client, makes the server go on with a
-- null pointer for the word.
pub parse_request_unseparated :
    (s : Bytes) → Without b';' s → Without 0 s → length s < request_length → parse_request s ≡ none
unfolding parse_request
parse_request_unseparated [] h z l = rw (read_unpadded [] z l) (unfold strtok in refl)
parse_request_unseparated (c ∷ cs) h z l =
    rw (read_unpadded (c ∷ cs) z l) (rw (strtok_last b';' c cs h) (unfold strtok in refl))
