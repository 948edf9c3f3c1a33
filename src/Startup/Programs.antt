-- ===== src/Startup/Programs.antt =====
-- The programs up to their main loops, by the arguments `argv` with the program's name in front.
use lab_reti_di_calcolatori.Base.{ℕ, Option, some, List, [], ◌∷◌, if◌then◌else◌}
use lab_reti_di_calcolatori.Base.Int.{ℤ}
use lab_reti_di_calcolatori.Base.CString.{Bytes}
use lab_reti_di_calcolatori.Startup.{
  stream, datagram, socket, setsockopt, bind, listen, connect, System, ready, Run, exits,
  lenient_port, strict_port, attempt, try,
}

abbrev pub is_ready : List ℤ → Run
is_ready sockets = record { outcome = ready sockets; calls = [] }

-- `argc != 2`.
abbrev pub one_argument : List Bytes → (Bytes → Option Run) → Option Run
one_argument (program ∷ s ∷ []) next = next s
one_argument _ next = some (exits 1)

-- `argc != 3`.
abbrev pub two_arguments : List Bytes → (Bytes → Bytes → Option Run) → Option Run
two_arguments (program ∷ host ∷ s ∷ []) next = next host s
two_arguments _ next = some (exits 1)

module _ (sys : System) where
  -- esercitazione_3/es1/serverDatagram.c.
  unfoldable pub longest_sockets : ℕ → Run
  longest_sockets port = attempt sys (socket datagram) 1 (λ sd.
      attempt sys (setsockopt sd) 1 (λ _. attempt sys (bind sd port) 1 (λ _. is_ready (sd ∷ []))))

  unfoldable pub longest_server : List Bytes → Option Run
  longest_server argv = one_argument argv (λ s. strict_port 2 s longest_sockets)

  -- esercitazione_3/es2/serverTCP.c.
  unfoldable pub line_sockets : ℕ → Run
  line_sockets port = attempt sys (socket stream) 2 (λ sd. attempt sys (setsockopt sd) 3 (λ _.
      attempt sys (bind sd port) 4 (λ _. attempt sys (listen sd 5) 5 (λ _. is_ready (sd ∷ [])))))

  unfoldable pub line_server : List Bytes → Option Run
  line_server argv = one_argument argv (λ s. lenient_port 2 s line_sockets)

  -- esercitazione_4/src/server.c: the datagram socket, behind the stream socket `listen_sd`.
  unfoldable pub word_datagram : ℕ → ℤ → Run
  word_datagram port listen_sd = attempt sys (socket datagram) 5 (λ udp_sd.
      attempt sys (setsockopt udp_sd) 6
        (λ _. attempt sys (bind udp_sd port) 7 (λ _. is_ready (listen_sd ∷ udp_sd ∷ []))))

  unfoldable pub word_sockets : ℕ → Run
  word_sockets port = attempt sys (socket stream) 2 (λ listen_sd.
      try sys (setsockopt listen_sd) (λ _.
        attempt sys (bind listen_sd port) 3
          (λ _. attempt sys (listen listen_sd 5) 4 (λ _. word_datagram port listen_sd))))

  unfoldable pub word_server : List Bytes → Option Run
  word_server argv = one_argument argv (λ s. lenient_port 2 s word_sockets)

  -- The host, looked up before the port is read and tested behind it, and the socket, bound to a
  -- port that the system chooses; the requests then go to `port`.
  unfoldable pub datagram_sockets : Bytes → ℕ → Run
  datagram_sockets host port =
      let sockets =
        attempt sys (socket datagram) 1
          (λ sd. attempt sys (bind sd 0) 1 (λ _. is_ready (sd ∷ []))) in
      if sys.finds_host host then sockets else exits 2

  -- esercitazione_3/es1/clientDatagram.c.
  unfoldable pub longest_client : List Bytes → Option Run
  longest_client argv = two_arguments argv (λ host s. strict_port 2 s (datagram_sockets host))

  -- esercitazione_4/src/clientDatagram.c.
  unfoldable pub word_client : List Bytes → Option Run
  word_client argv = two_arguments argv (λ host s. strict_port 2 s (datagram_sockets host))

  unfoldable pub stream_sockets : ℕ → Run
  stream_sockets port =
      attempt sys (socket stream) 2
        (λ sd. attempt sys (connect sd port) 3 (λ _. is_ready (sd ∷ [])))

  -- esercitazione_3/es2/clientTCP.c.
  unfoldable pub line_client : List Bytes → Option Run
  line_client argv = two_arguments argv (λ host s.
      let go_on = lenient_port 3 s stream_sockets in
      if sys.finds_host host then go_on else some (exits 2))

  -- esercitazione_3/es2/clientTCPselect.c, which starts in the same way.
  unfoldable pub select_client : List Bytes → Option Run
  select_client argv = line_client argv

  -- esercitazione_4/src/clientTCP.c, which starts in the same way.
  unfoldable pub directory_client : List Bytes → Option Run
  directory_client argv = line_client argv
