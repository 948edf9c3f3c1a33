-- ===== src/Startup/Ports.antt =====
-- Which ports the programs use.
use lab_reti_di_calcolatori.Base.{
  ℕ, ◌≤◌, Option, some, some_inj, List, [], ◌∷◌, if◌then◌else◌, ◌≡◌, refl, arith, All, Bool-cases,
  inl, inr, ◌⊎◌, bind-eq-some,
}
use lab_reti_di_calcolatori.Base.Int.{ℤ, pos, ltb_ℤ, pos_part}
use lab_reti_di_calcolatori.Base.CString.{Bytes}
use lab_reti_di_calcolatori.Startup.{
  Call, bind, connect, System, Run, exits, is_bad_port, all_digits, atoi, lenient_port, strict_port,
  attempt, try,
}
use lab_reti_di_calcolatori.Startup.Programs.{
  one_argument, two_arguments, longest_sockets, longest_server, line_sockets, line_server,
  word_datagram, word_sockets, word_server, datagram_sockets, longest_client, word_client,
  stream_sockets, line_client, select_client, directory_client,
}

-- A port that a program may use: no server listens below 1024.
abbrev pub IsPort : ℕ → Type 0
IsPort port = (1024 ≤ port) × (port ≤ 65535)

-- A call without a port, a binding to any free port, or a call with a port in range.
abbrev pub IsAllowed : Call → Type 0
IsAllowed (bind sd port) = (port ≡ 0) ⊎ IsPort port
IsAllowed (connect sd port) = IsPort port
IsAllowed _ = Unit

module _ (sys : System) where
  attempt-IsAllowed :
      (c : Call) (code : ℕ) (next : ℤ → Run)
      → IsAllowed c
      → ((sd : ℤ) → All IsAllowed (next sd).calls)
      → All IsAllowed (attempt sys c code next).calls
  unfolding attempt
  attempt-IsAllowed c code next allowed later = elim (Bool-cases (ltb_ℤ (sys.returns c) (pos 0))) [
    | inl failed ↦ rw failed (allowed, tt)
    | inr passed ↦ rw passed (allowed, later (sys.returns c))
  ]

  lenient_port-IsAllowed :
      (code : ℕ) (s : Bytes) (next : ℕ → Run) (r : Run)
      → ((port : ℕ) → IsPort port → All IsAllowed (next port).calls)
      → lenient_port code s next ≡ some r
      → All IsAllowed r.calls
  unfolding lenient_port
  lenient_port-IsAllowed code s next r later h =
      let (port, read, run) =
        bind-eq-some (atoi s)
          (λ port. some (if is_bad_port port then exits code else next (pos_part port))) h in
      rw (← some_inj run) (elim (Bool-cases (is_bad_port port)) [
        | inl bad ↦ rw bad tt
        | inr good ↦ rw good (later (pos_part port) (ground arith))
      ])

  strict_port-IsAllowed :
      (code : ℕ) (s : Bytes) (next : ℕ → Run) (r : Run)
      → ((port : ℕ) → IsPort port → All IsAllowed (next port).calls)
      → strict_port code s next ≡ some r
      → All IsAllowed r.calls
  unfolding strict_port
  strict_port-IsAllowed code s next r later h = elim (Bool-cases (all_digits s)) [
    | inl digits ↦ lenient_port-IsAllowed code s next r later (rw (strict_port, digits) at h)
    | inr other ↦ rw (← some_inj (rw (strict_port, other) at h)) tt
  ]

  longest_sockets-IsAllowed :
      (port : ℕ) → IsPort port → All IsAllowed (longest_sockets sys port).calls
  unfolding longest_sockets
  longest_sockets-IsAllowed port h =
      attempt-IsAllowed _ _ _ tt
        (λ sd. attempt-IsAllowed _ _ _ tt (λ _. attempt-IsAllowed _ _ _ (inr h) (λ _. tt)))

  line_sockets-IsAllowed : (port : ℕ) → IsPort port → All IsAllowed (line_sockets sys port).calls
  unfolding line_sockets
  line_sockets-IsAllowed port h = attempt-IsAllowed _ _ _ tt (λ sd.
      attempt-IsAllowed _ _ _ tt
        (λ _. attempt-IsAllowed _ _ _ (inr h) (λ _. attempt-IsAllowed _ _ _ tt (λ _. tt))))

  word_datagram-IsAllowed :
      (port : ℕ) (sd : ℤ) → IsPort port → All IsAllowed (word_datagram sys port sd).calls
  unfolding word_datagram
  word_datagram-IsAllowed port sd h =
      attempt-IsAllowed _ _ _ tt
        (λ sd. attempt-IsAllowed _ _ _ tt (λ _. attempt-IsAllowed _ _ _ (inr h) (λ _. tt)))

  word_sockets-IsAllowed : (port : ℕ) → IsPort port → All IsAllowed (word_sockets sys port).calls
  unfolding word_sockets try
  word_sockets-IsAllowed port h = attempt-IsAllowed _ _ _ tt (λ sd. (
    tt,
    attempt-IsAllowed _ _ _ (inr h)
        (λ _. attempt-IsAllowed _ _ _ tt (λ _. word_datagram-IsAllowed port sd h)),
  ))

  datagram_sockets-IsAllowed :
      (host : Bytes) (port : ℕ) → All IsAllowed (datagram_sockets sys host port).calls
  unfolding datagram_sockets
  datagram_sockets-IsAllowed host port = elim (Bool-cases (sys.finds_host host)) [
    | inl found ↦
        rw found (attempt-IsAllowed _ _ _ tt (λ sd. attempt-IsAllowed _ _ _ (inl refl) (λ _. tt)))
    | inr unknown ↦ rw unknown tt
  ]

  stream_sockets-IsAllowed :
      (port : ℕ) → IsPort port → All IsAllowed (stream_sockets sys port).calls
  unfolding stream_sockets
  stream_sockets-IsAllowed port h =
      attempt-IsAllowed _ _ _ tt (λ sd. attempt-IsAllowed _ _ _ h (λ _. tt))

  one_argument-IsAllowed :
      (argv : List Bytes) (next : Bytes → Option Run) (r : Run)
      → ((s : Bytes) → next s ≡ some r → All IsAllowed r.calls)
      → one_argument argv next ≡ some r
      → All IsAllowed r.calls
  one_argument-IsAllowed [] next r later h = rw (← some_inj h) tt
  one_argument-IsAllowed (_ ∷ []) next r later h = rw (← some_inj h) tt
  one_argument-IsAllowed (_ ∷ s ∷ []) next r later h = later s h
  one_argument-IsAllowed (_ ∷ _ ∷ _ ∷ _) next r later h = rw (← some_inj h) tt

  two_arguments-IsAllowed :
      (argv : List Bytes) (next : Bytes → Bytes → Option Run) (r : Run)
      → ((host s : Bytes) → next host s ≡ some r → All IsAllowed r.calls)
      → two_arguments argv next ≡ some r
      → All IsAllowed r.calls
  two_arguments-IsAllowed [] next r later h = rw (← some_inj h) tt
  two_arguments-IsAllowed (_ ∷ []) next r later h = rw (← some_inj h) tt
  two_arguments-IsAllowed (_ ∷ _ ∷ []) next r later h = rw (← some_inj h) tt
  two_arguments-IsAllowed (_ ∷ host ∷ s ∷ []) next r later h = later host s h
  two_arguments-IsAllowed (_ ∷ _ ∷ _ ∷ _ ∷ _) next r later h = rw (← some_inj h) tt

  line_client-IsAllowed :
      (argv : List Bytes) (r : Run) → line_client sys argv ≡ some r → All IsAllowed r.calls
  unfolding line_client
  line_client-IsAllowed argv r = two_arguments-IsAllowed argv _ r (λ host s h.
      elim (Bool-cases (sys.finds_host host)) [
        | inl found ↦
            lenient_port-IsAllowed 3 s (stream_sockets sys) r stream_sockets-IsAllowed
              (rw found at h)
        | inr unknown ↦ rw (← some_inj (rw unknown at h)) tt
      ])

  -- Whatever the arguments of one of the servers and clients are, as long as `atoi` is defined on
  -- its port, and whatever the system answers, the program binds and connects its sockets to ports
  -- from 1024 to 65535 only, or binds one to a port of the system's choice.
  pub start-IsAllowed :
      (argv : List Bytes) (r : Run)
      → (longest_server sys argv ≡ some r)
        ⊎ ((line_server sys argv ≡ some r)
            ⊎ ((word_server sys argv ≡ some r)
                ⊎ ((longest_client sys argv ≡ some r)
                    ⊎ ((word_client sys argv ≡ some r)
                        ⊎ ((line_client sys argv ≡ some r)
                            ⊎ ((select_client sys argv ≡ some r)
                                ⊎ (directory_client sys argv ≡ some r)))))))
      → All IsAllowed r.calls
  unfolding longest_server line_server word_server longest_client word_client select_client
      directory_client
  start-IsAllowed argv r (inl h) =
      one_argument-IsAllowed argv _ r (λ s. strict_port-IsAllowed 2 s _ r longest_sockets-IsAllowed)
        h
  start-IsAllowed argv r (inr (inl h)) =
      one_argument-IsAllowed argv _ r (λ s. lenient_port-IsAllowed 2 s _ r line_sockets-IsAllowed) h
  start-IsAllowed argv r (inr (inr (inl h))) =
      one_argument-IsAllowed argv _ r (λ s. lenient_port-IsAllowed 2 s _ r word_sockets-IsAllowed) h
  start-IsAllowed argv r (inr (inr (inr (inl h)))) =
      two_arguments-IsAllowed argv _ r
        (λ host s. strict_port-IsAllowed 2 s _ r (λ port _. datagram_sockets-IsAllowed host port)) h
  start-IsAllowed argv r (inr (inr (inr (inr (inl h))))) =
      two_arguments-IsAllowed argv _ r
        (λ host s. strict_port-IsAllowed 2 s _ r (λ port _. datagram_sockets-IsAllowed host port)) h
  start-IsAllowed argv r (inr (inr (inr (inr (inr (inl h)))))) = line_client-IsAllowed argv r h
  start-IsAllowed argv r (inr (inr (inr (inr (inr (inr (inl h))))))) =
      line_client-IsAllowed argv r h
  start-IsAllowed argv r (inr (inr (inr (inr (inr (inr (inr h))))))) =
      line_client-IsAllowed argv r h
