-- ===== src/Lines/Accepting.antt =====
-- The loop of esercitazione_3/es2/serverTCP.c that accepts connections, in the server and in the children that come back to
-- it. What `accept` gives to which process is a sequence of events.
use lab_reti_di_calcolatori.Base.{
  ℕ, zero, suc, Bool, true, false, not, Option, none, some, List, [], ◌∷◌, ◌++◌, if◌then◌else◌,
  ◌>>=◌,
}
use lab_reti_di_calcolatori.Lines.{Recv}
use lab_reti_di_calcolatori.Lines.Connection.{Vars, Replies, serve_connection}

-- A connection: whether `fork` succeeds, whether the address of the client has a name, what the variables of the
-- child hold, and what its calls of `recv` find.
pub record Arrival : Type 0 where
  pub forks : Bool
  pub named : Bool
  pub vars : Vars
  pub headers : ℕ → ℕ → ℕ
  pub stream : List Recv

-- What `accept` gives to the process with this number: EINTR, another error, or a connection.
pub data Event : Type 0 where
  interrupt : ℕ → Event
  error : ℕ → Event
  arrive : ℕ → Arrival → Event

-- Whether the process with each number is in the loop, where the server has number 0, and what the connections have been
-- served with, in the order of their arrival.
pub record Service : Type 0 where
  pub accepting : List Bool
  pub served : List (Option Replies)

abbrev pub is_in : ℕ → List Bool → Bool
is_in p [] = false
is_in zero (b ∷ bs) = b
is_in (suc p) (b ∷ bs) = is_in p bs

-- The process exits.
abbrev pub leave : ℕ → List Bool → List Bool
leave p [] = []
leave zero (b ∷ bs) = false ∷ bs
leave (suc p) (b ∷ bs) = b ∷ leave p bs

-- Behind `accept`: the child serves its connection and ends, or goes on with the loop. The parent goes on, also where
-- there is no child.
unfoldable pub take_connection : Arrival → Service → Service
take_connection a s =
    let replies = serve_connection a.headers a.vars a.stream in
    if not a.forks
    then s
    else if a.named
    then record s { served = s.served ++ replies ∷ [] }
    else record s { accepting = s.accepting ++ true ∷ [] }

-- A process that is not in the loop has no event.
unfoldable pub accept_event : Event → Service → Option Service
accept_event (interrupt p) s = if is_in p s.accepting then some s else none
accept_event (error p) s =
    if is_in p s.accepting then some (record s { accepting = leave p s.accepting }) else none
accept_event (arrive p a) s = if is_in p s.accepting then some (take_connection a s) else none

unfoldable pub accept_loop : List Event → Service → Option Service
accept_loop [] s = some s
accept_loop (event ∷ events) s = accept_event event s >>= accept_loop events

-- The server alone.
abbrev pub listening : Service
listening = record { accepting = true ∷ []; served = [] }
