-- ===== src/Lines/Acceptors.antt =====
-- The connections that the processes of esercitazione_3/es2/serverTCP.c accept, in any order.
use lab_reti_di_calcolatori.Base.{
  ℕ, ◌+◌, Bool, not, ◌&&◌, Option, List, [], ◌∷◌, ◌++◌, map, ◌≡◌, if◌then◌else◌, All,
}
use lab_reti_di_calcolatori.Lines.{byte, eof}
use lab_reti_di_calcolatori.Lines.Connection.{Ask, Replies, serve_connection}
use lab_reti_di_calcolatori.Lines.Header.{HasRoom, IsAsk, WholeHeaders}
use lab_reti_di_calcolatori.Lines.Requests.{requests_bytes}
use lab_reti_di_calcolatori.Lines.Accepting.{Arrival, Event, interrupt, error, arrive, Service}

-- The connections that a child serves.
abbrev pub clients : List Event → List Arrival
clients [] = []
clients (interrupt p ∷ events) = clients events
clients (error p ∷ events) = clients events
clients (arrive p a ∷ events) = if a.forks && a.named then a ∷ clients events else clients events

-- How many children come back to the loop, and how many processes exit in it.
abbrev pub strays : List Event → ℕ
strays [] = 0
strays (interrupt p ∷ events) = strays events
strays (error p ∷ events) = strays events
strays (arrive p a ∷ events) = if a.forks && not a.named then strays events + 1 else strays events

abbrev pub errors : List Event → ℕ
errors [] = 0
errors (interrupt p ∷ events) = errors events
errors (error p ∷ events) = errors events + 1
errors (arrive p a ∷ events) = errors events

-- How many processes are in the loop.
abbrev pub acceptors : List Bool → ℕ
acceptors [] = 0
acceptors (b ∷ bs) = if b then acceptors bs + 1 else acceptors bs

abbrev reply : Arrival → Option Replies
reply a = serve_connection a.headers a.vars a.stream

-- What a run from `s` comes to.
abbrev Counted : List Event → Service → Service → Type 0
Counted events s t =
    (t.served ≡ s.served ++ map reply (clients events))
    × (acceptors t.accepting + errors events ≡ acceptors s.accepting + strays events)

-- A client that sends whole requests and closes.
abbrev pub IsClient : (Arrival → List Ask) → Arrival → Type 0
IsClient asked a =
    WholeHeaders a.headers
    × HasRoom a.vars
    × All IsAsk (asked a)
    × (a.stream ≡ map byte (requests_bytes (asked a)) ++ eof ∷ [])
