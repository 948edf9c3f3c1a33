-- ===== src/Dispatch/Connections.antt =====
-- The server of exercise 4 never closes a connection in the parent.
use lab_reti_di_calcolatori.Base.{
  ℕ, ◌+◌, ◌-◌, ◌≤◌, Bool, false, Option, none, some, List, [], ◌∷◌, ◌++◌, ◌≡◌, refl, ap, arith,
  if◌then◌else◌, bind-eq-some, some_inj,
}
use lab_reti_di_calcolatori.Base.CString.{Bytes}
use lab_reti_di_calcolatori.Base.Stream.{Recv}
use lab_reti_di_calcolatori.Words.{System, serve}
use lab_reti_di_calcolatori.Dispatch.{
  Event, interrupted, broken, ready, Parent, Child, Turn, Log, serve_stream, serve_datagram,
  main_loop,
}

-- The children that have a connection.
abbrev pub connected : List Child → ℕ
connected [] = 0
connected (c ∷ children) = if c.accepted then connected children + 1 else connected children

connected-append : (xs ys : List Child) → connected (xs ++ ys) ≡ connected xs + connected ys
connected-append [] ys = omega arith
connected-append (c ∷ xs) ys = ground (arith, connected-append xs ys)

module _ (accepts : ℕ → Bool) (limit : ℕ) (refuses : (n : ℕ) → limit ≤ n → accepts n ≡ false) where
  serve_stream_bounded :
      (forks : Bool) (stream : Option (List Recv)) (p : Parent)
      → let t = serve_stream accepts forks stream p in
        connected t.children + (limit - t.parent.connections) ≤ limit - p.connections
  unfolding serve_stream
  serve_stream_bounded forks none p = omega arith
  serve_stream_bounded forks (some stream) p = ground (arith, refuses p.connections)

  serve_datagram_keeps :
      (sys : System) (datagram : Option (Option Bytes)) (t u : Turn)
      → serve_datagram sys datagram t ≡ some u
      → (u.children ≡ t.children) × (u.parent.connections ≡ t.parent.connections)
  unfolding serve_datagram
  serve_datagram_keeps sys none t u h = rw (← some_inj h) (refl, refl)
  serve_datagram_keeps sys (some none) t u h = rw (← some_inj h) (refl, refl)
  serve_datagram_keeps sys (some (some received)) t u h =
      let (served, called, same) = bind-eq-some (serve sys t.parent.stats_dir received) _ h in
      rw (← some_inj same) (refl, refl)

  -- Where `accept` fails once `limit` connections are open, the server starts at most as many children with
  -- a connection as are missing to that number: it never gets a connection back.
  pub main_loop_bounded :
      (events : List Event) (p : Parent) (log : Log)
      → main_loop accepts events p ≡ some log
      → connected log.started ≤ limit - p.connections
  unfolding main_loop
  main_loop_bounded [] p log h = rw (← some_inj h) (omega arith)
  main_loop_bounded (interrupted ∷ events) p log h = main_loop_bounded events p log h
  main_loop_bounded (broken ∷ events) p log h = rw (← some_inj h) (omega arith)
  main_loop_bounded (ready sys forks stream datagram ∷ events) p log h =
      let behind = serve_stream accepts forks stream p in
      let (turn, served, h1) =
        bind-eq-some (serve_datagram (sys behind.parent.connections) datagram behind) _ h in
      let (later, rest, same) = bind-eq-some (main_loop accepts events turn.parent) _ h1 in
      let (children_eq, open_eq) =
        serve_datagram_keeps (sys behind.parent.connections) datagram _ turn served in
      let bound = main_loop_bounded events turn.parent later rest in
      let first = serve_stream_bounded forks stream p in
      rw (← some_inj same) (
        omega (
          arith,
          connected-append turn.children later.started,
          ap connected children_eq,
          open_eq,
          bound,
          first,
        ))
