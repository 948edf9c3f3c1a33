-- ===== src/Dispatch/Isolation.antt =====
-- The connections that the server of exercise 4 has accepted and its datagram service: only the descriptors that
-- they hold can touch it.
use lab_reti_di_calcolatori.Base.{
  ℕ, ◌+◌, ◌≤◌, Bool, Option, none, some, List, [], ◌∷◌, map, ◌≡◌, refl, ap, sym, ◌∙◌, arith, All,
  bind-eq-some, some_inj, subst, if◌then◌else◌,
}
use lab_reti_di_calcolatori.Base.CString.{Bytes}
use lab_reti_di_calcolatori.Base.Stream.{Recv}
use lab_reti_di_calcolatori.Words.{System, serve}
use lab_reti_di_calcolatori.Dispatch.{
  Event, interrupted, broken, ready, Parent, Child, Turn, Log, serve_stream, serve_datagram,
  main_loop,
}

-- The event without a connection.
abbrev pub datagram_only : Event → Event
datagram_only interrupted = interrupted
datagram_only broken = broken
datagram_only (ready sys forks stream datagram) = ready sys forks none datagram

-- The parent with this number of connections.
abbrev holding : ℕ → Parent → Parent
holding n p = record p { connections = n }

-- How many connections come.
abbrev pub arrivals : List Event → ℕ
arrivals [] = 0
arrivals (interrupted ∷ events) = arrivals events
arrivals (broken ∷ events) = arrivals events
arrivals (ready sys forks none datagram ∷ events) = arrivals events
arrivals (ready sys forks (some stream) datagram ∷ events) = arrivals events + 1

-- Up to `limit` open connections the system answers as with none.
abbrev pub IsSteady : ℕ → Event → Type 0
IsSteady limit (ready sys forks stream datagram) = (k : ℕ) → k ≤ limit → sys k ≡ sys 0
IsSteady limit _ = Unit

abbrev comes : Option (List Recv) → ℕ
comes none = 0
comes (some stream) = 1

arrivals_ready :
    (sys : ℕ → System) (forks : Bool) (stream : Option (List Recv))
    (datagram : Option (Option Bytes)) (events : List Event)
    → arrivals (ready sys forks stream datagram ∷ events) ≡ arrivals events + comes stream
arrivals_ready sys forks none datagram events = omega arith
arrivals_ready sys forks (some stream) datagram events = refl

serve_stream-answers :
    (accepts : ℕ → Bool) (forks : Bool) (stream : Option (List Recv)) (p : Parent)
    → (k : ℕ) × (children : List Child) × (serve_stream accepts forks stream p
        ≡ record { parent = holding k p; children = children; answers = [] })
      × (k ≤ p.connections + comes stream)
unfolding serve_stream
serve_stream-answers accepts forks none p = (p.connections, [], refl, omega arith)
serve_stream-answers accepts forks (some stream) p =
    (if accepts p.connections then p.connections + 1 else p.connections, _, refl, ground arith)

serve_datagram-alone :
    (sys : System) (datagram : Option (Option Bytes)) (p : Parent) (children : List Child) (k n : ℕ)
    (t : Turn)
    → serve_datagram sys datagram
        (record { parent = holding k p; children = children; answers = [] })
      ≡ some t
    → (serve_datagram sys datagram (record { parent = holding n p; children = []; answers = [] })
        ≡ some (record { parent = holding n t.parent; children = []; answers = t.answers }))
      × (t.parent.connections ≡ k)
unfolding serve_datagram
serve_datagram-alone sys none p children k n t h = rw (← some_inj h) (refl, refl)
serve_datagram-alone sys (some none) p children k n t h = rw (← some_inj h) (refl, refl)
serve_datagram-alone sys (some (some received)) p children k n t h =
    let (served, called, same) = bind-eq-some (serve sys p.stats_dir received) _ h in
    rw called (rw (← some_inj same) (refl, refl))

-- The server answers datagrams as it would without any connection, up to a number of connections: with
-- the same events and no connections it starts no child, gives the same answers and calls `rename` for
-- the same files, if the system answers alike up to that number of open connections, and neither run
-- has more, which those that are open at first and those that come do not exceed.
pub main_loop-datagram_only :
    (accepts : ℕ → Bool) (limit : ℕ) (events : List Event) (p : Parent) (log : Log) (n : ℕ)
    → All (IsSteady limit) events
    → p.connections + arrivals events ≤ limit
    → n ≤ limit
    → main_loop accepts events p ≡ some log
    → main_loop accepts (map datagram_only events) (holding n p)
      ≡ some (record { started = []; answered = log.answered })
unfolding main_loop serve_stream
main_loop-datagram_only accepts limit [] p log n steady room few h =
    ap (λ (l : Log). some (record { started = []; answered = l.answered })) (some_inj h)
main_loop-datagram_only accepts limit (interrupted ∷ events) p log n steady room few h =
    main_loop-datagram_only accepts limit events p log n steady.1 room few h
main_loop-datagram_only accepts limit (broken ∷ events) p log n steady room few h =
    ap (λ (l : Log). some (record { started = []; answered = l.answered })) (some_inj h)
main_loop-datagram_only accepts limit (ready sys forks stream datagram ∷ events) p log n
      (same_sys, steady) room few h =
    let behind = serve_stream accepts forks stream p in
    let (turn, served, h1) =
      bind-eq-some (serve_datagram (sys behind.parent.connections) datagram behind) _ h in
    let (later, rest, same) = bind-eq-some (main_loop accepts events turn.parent) _ h1 in
    let (k, children, stream_eq, grown) = serve_stream-answers accepts forks stream p in
    let size = arrivals_ready sys forks stream datagram events in
    let here : sys k ≡ sys n = same_sys k (omega arith) ∙ sym (same_sys n few) in
    let served_k =
      subst (λ t. serve_datagram (sys t.parent.connections) datagram t ≡ some turn) stream_eq
        served in
    let (alone, open_now) = serve_datagram-alone (sys n) datagram p children k n turn (
      subst
        (λ u.
          serve_datagram u datagram
            (record { parent = holding k p; children = children; answers = [] })
          ≡ some turn)
        here served_k) in
    rw alone (
      rw
        (main_loop-datagram_only accepts limit events turn.parent later n steady (omega arith) few
          rest)
        (ap (λ (l : Log). some (record { started = []; answered = l.answered })) (some_inj same)))
