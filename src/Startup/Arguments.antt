-- ===== src/Startup/Arguments.antt =====
-- What the programs make of their arguments, and when they are ready.
use lab_reti_di_calcolatori.Base.{
  ℕ, ◌^◌, ◌<◌, true, false, some, List, [], ◌∷◌, ◌++◌, ◌≡◌, refl, arith, Bool-cases, inl, inr, ltb,
  ap, ◌↔◌, ◌==◌,
}
use lab_reti_di_calcolatori.Base.Int.{ℤ, pos, ltb_ℤ, ◌≤ℤ◌}
use lab_reti_di_calcolatori.Base.CString.{Bytes}
use lab_reti_di_calcolatori.Startup.{
  stream, datagram, Call, socket, setsockopt, bind, listen, System, ready, exits, is_digit,
  is_space, is_bad_port, all_digits, atoi, signed_value, skip_spaces, digits_value, lenient_port,
  strict_port, attempt, try,
}
use lab_reti_di_calcolatori.Startup.Programs.{
  longest_sockets, longest_server, line_server, word_datagram, word_sockets,
}
use lab_reti_di_calcolatori.Startup.Ports.{IsPort}

atoi_digits :
    (c : ℕ) (cs : Bytes)
    → is_digit c ≡ true
    → digits_value (c ∷ cs) 0 < 2 ^ 31
    → atoi (c ∷ cs) ≡ some (pos (digits_value (c ∷ cs) 0))
unfolding atoi skip_spaces signed_value
atoi_digits c cs digit h =
    let no_space : is_space c ≡ false = ground arith in
    let no_minus : (c == b'-') ≡ false = ground arith in
    let no_plus : (c == b'+') ≡ false = ground arith in
    let small : ltb (digits_value (c ∷ cs) 0) (2 ^ 31) ≡ true = ground arith in
    rw (no_space) (rw (no_minus) (rw no_plus (rw small refl)))

digits_value_junk :
    (cs : Bytes) (n j : ℕ) (junk : Bytes)
    → all_digits cs ≡ true
    → is_digit j ≡ false
    → digits_value (cs ++ j ∷ junk) n ≡ digits_value cs n
unfolding digits_value all_digits
digits_value_junk [] n j junk digits other = rw other refl
digits_value_junk (c ∷ cs) n j junk digits other = elim (Bool-cases (is_digit c)) [
  | inl digit ↦ rw digit (digits_value_junk cs _ j junk (rw digit at digits) other)
  | inr letter ↦ rw letter refl
]

front_digit : (c : ℕ) (cs : Bytes) → all_digits (c ∷ cs) ≡ true → is_digit c ≡ true
unfolding all_digits
front_digit c cs h = ground arith

all_digits_junk :
    (cs junk : Bytes) (j : ℕ) → is_digit j ≡ false → all_digits (cs ++ j ∷ junk) ≡ false
unfolding all_digits
all_digits_junk [] junk j other = rw other refl
all_digits_junk (c ∷ cs) junk j other = let rest = all_digits_junk cs junk j other in ground arith

module _ (sys : System) where
  longest_sockets_start :
      (port : ℕ)
      → ((call : Call) → pos 0 ≤ℤ sys.returns call)
      → let sd = sys.returns (socket datagram) in
        longest_sockets sys port ≡ record {
          outcome = ready (sd ∷ []);
          calls = socket datagram ∷ setsockopt sd ∷ bind sd port ∷ [];
        }
  unfolding longest_sockets attempt
  longest_sockets_start port succeeds =
      let passed : (call : Call) → ltb_ℤ (sys.returns call) (pos 0) ≡ false =
        λ call. let h = succeeds call in ground arith in
      let sd = sys.returns (socket datagram) in
      rw (passed (socket datagram), passed (setsockopt sd), passed (bind sd port)) refl

  -- With any port, the server of exercise 4 gets ready exactly when each of its calls succeeds but
  -- the first `setsockopt`, whose failure it only reports, and then with both of its sockets.
  pub word_sockets-ready :
      (port : ℕ) (o : List ℤ)
      → let listen_sd = sys.returns (socket stream) in
        let udp_sd = sys.returns (socket datagram) in
        ((word_sockets sys port).outcome ≡ ready o) ↔ (
          (pos 0 ≤ℤ listen_sd)
          × (pos 0 ≤ℤ sys.returns (bind listen_sd port))
          × (pos 0 ≤ℤ sys.returns (listen listen_sd 5))
          × (pos 0 ≤ℤ udp_sd)
          × (pos 0 ≤ℤ sys.returns (setsockopt udp_sd))
          × (pos 0 ≤ℤ sys.returns (bind udp_sd port))
          × (ready (listen_sd ∷ udp_sd ∷ []) ≡ ready o))
  unfolding word_sockets word_datagram try attempt
  word_sockets-ready port o = ground arith

  -- The longest-word server, called with a port from 1024 to 65535 in digits, where its calls
  -- succeed, makes one socket and binds it to that port.
  pub longest_server_start :
      (program s : Bytes) (c : ℕ)
      → all_digits (c ∷ s) ≡ true
      → IsPort (digits_value (c ∷ s) 0)
      → ((call : Call) → pos 0 ≤ℤ sys.returns call)
      → let port = digits_value (c ∷ s) 0 in
        let sd = sys.returns (socket datagram) in
        longest_server sys (program ∷ (c ∷ s) ∷ [])
        ≡ some (record {
          outcome = ready (sd ∷ []);
          calls = socket datagram ∷ setsockopt sd ∷ bind sd port ∷ [];
        })
  unfolding longest_server strict_port lenient_port longest_sockets attempt all_digits
  longest_server_start program s c digits port succeeds =
      let number = atoi_digits c s (front_digit c s digits) (omega arith) in
      let good : is_bad_port (pos (digits_value (c ∷ s) 0)) ≡ false = ground arith in
      rw (strict_port, digits)
        (rw (lenient_port, number) (rw good (ap some (longest_sockets_start _ succeeds))))

  -- A line server that is called with one argument, digits of a value below 2^31 and then anything
  -- that begins with another character, starts in the same way as without the rest.
  pub line_server_junk :
      (program digits junk : Bytes) (c j : ℕ)
      → all_digits (c ∷ digits) ≡ true
      → is_digit j ≡ false
      → digits_value (c ∷ digits) 0 < 2 ^ 31
      → line_server sys (program ∷ ((c ∷ digits) ++ j ∷ junk) ∷ [])
        ≡ line_server sys (program ∷ (c ∷ digits) ∷ [])
  unfolding line_server lenient_port
  line_server_junk program digits junk c j all other small =
      let digit = front_digit c digits all in
      let same = digits_value_junk (c ∷ digits) 0 j junk all other in
      let junk_small : digits_value (c ∷ (digits ++ j ∷ junk)) 0 < 2 ^ 31 = omega arith in
      let number = atoi_digits c digits digit small in
      let junk_number = atoi_digits c (digits ++ j ∷ junk) digit junk_small in
      rw (lenient_port, junk_number, number, same) refl

  -- The longest-word server, called with one argument that has a character in it that is no digit,
  -- exits with 2 and makes no call.
  pub longest_server_junk :
      (program digits junk : Bytes) (j : ℕ)
      → is_digit j ≡ false
      → longest_server sys (program ∷ (digits ++ j ∷ junk) ∷ []) ≡ some (exits 2)
  unfolding longest_server strict_port
  longest_server_junk program digits junk j other =
      rw (strict_port, all_digits_junk digits junk j other) refl
