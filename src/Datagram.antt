-- ===== src/Datagram.antt =====
-- A datagram client at its server: the `sendto` and the `recvfrom` of one request of
-- esercitazione_3/es1/clientDatagram.c and esercitazione_4/src/clientDatagram.c. What the network does is a
-- parameter, and so is the server.
pub mod Repeats
use lab_reti_di_calcolatori.Base.{
  Bool, Option, none, some, List, [], ◌∷◌, ◌++◌, if◌then◌else◌, ◌>>=◌,
}
use lab_reti_di_calcolatori.Base.Int.{ℤ}
use lab_reti_di_calcolatori.Base.CString.{Bytes}

-- What becomes of one request: whether `sendto` succeeds; for each copy of the datagram that reaches the server,
-- whether its answer comes back; and whether `recvfrom` succeeds.
pub record Round : Type 0 where
  pub sends : Bool
  pub answered : List Bool
  pub receives : Bool

-- The request was given up, the client waits for ever, or it has an answer.
pub data Reply : Type 0 where
  given_up : Reply
  no_answer : Reply
  reply : ℤ → Reply

-- What a request leaves: the reply, the answers that have come and not been received, and the server.
pub record Called (S : Type 0) : Type 0 where
  pub result : Reply
  pub queue : List ℤ
  pub server : S

module _ {S : Type 0} (serve : Bytes → S → Option (ℤ × S)) where
  -- The copies of a datagram, one after the other.
  unfoldable pub deliver : List Bool → Bytes → S → Option (List ℤ × S)
  deliver [] datagram s = some ([], s)
  deliver (back ∷ copies) datagram s = do
    (answer, t) ← serve datagram s
    (answers, u) ← deliver copies datagram t
    some (if back then answer ∷ answers else answers, u)

  -- `recvfrom` takes the answer that has come first.
  unfoldable pub receive_answer : Bool → List ℤ → S → Called S
  receive_answer receives [] s = record {
    result = if receives then no_answer else given_up;
    queue = [];
    server = s;
  }
  receive_answer receives (answer ∷ queue) s =
      if receives
      then record { result = reply answer; queue = queue; server = s }
      else record { result = given_up; queue = answer ∷ queue; server = s }

  -- One request, where `queue` has come before.
  unfoldable pub call_server : Round → Bytes → List ℤ → S → Option (Called S)
  call_server round datagram queue s =
      let received = do
        (answers, t) ← deliver round.answered datagram s
        some (receive_answer round.receives (queue ++ answers) t)
      in if round.sends
        then received
        else some (record { result = given_up; queue = queue; server = s })
