-- ===== src/Startup/Tests.antt =====
-- Runs of the programs' starts, and the theorems at concrete inputs.
use lab_reti_di_calcolatori.Base.{
  true, if◌then◌else◌, some, List, [], ◌∷◌, ◌≡◌, refl, arith, All, inl, inr,
}
use lab_reti_di_calcolatori.Base.Int.{ℤ, pos, negsuc, ltb_ℤ}
use lab_reti_di_calcolatori.Base.CString.{codes}
use lab_reti_di_calcolatori.Startup.{
  Kind, stream, datagram, Call, socket, setsockopt, bind, listen, connect, System, ready, Run,
  exits,
}
use lab_reti_di_calcolatori.Startup.Programs.{longest_server, line_server, word_sockets}
use lab_reti_di_calcolatori.Startup.Ports.{IsAllowed, start-IsAllowed}
use lab_reti_di_calcolatori.Startup.Arguments.{
  word_sockets-ready, longest_server_start, line_server_junk, longest_server_junk,
}

abbrev descriptor : Kind → ℤ
descriptor stream = pos 3
descriptor datagram = pos 4

-- The options of the stream socket cannot be set.
abbrev value : Call → ℤ
value (socket kind) = descriptor kind
value (setsockopt sd) = if ltb_ℤ sd (pos 4) then negsuc 0 else pos 0
value _ = pos 0

abbrev system : System
system = record { returns = value; finds_host = λ host. true }

abbrev willing : System
willing = record { returns = λ call. pos 3; finds_host = λ host. true }

abbrev line_calls : List Call
line_calls = socket stream ∷ setsockopt (pos 3) ∷ bind (pos 3) 54321 ∷ listen (pos 3) 5 ∷ []

start-IsAllowed_example : All IsAllowed line_calls
unfolding line_server lab_reti_di_calcolatori.Startup.lenient_port
    lab_reti_di_calcolatori.Startup.atoi lab_reti_di_calcolatori.Startup.signed_value
    lab_reti_di_calcolatori.Startup.skip_spaces lab_reti_di_calcolatori.Startup.digits_value
    lab_reti_di_calcolatori.Startup.Programs.line_sockets lab_reti_di_calcolatori.Startup.attempt
start-IsAllowed_example =
    start-IsAllowed willing (codes "server" ∷ codes "54321" ∷ [])
      (record { outcome = ready (pos 3 ∷ []); calls = line_calls }) (inr (inl refl))

longest_server_start_run :
    longest_server willing (codes "server" ∷ codes "2000" ∷ [])
    ≡ some (record {
      outcome = ready (pos 3 ∷ []);
      calls = socket datagram ∷ setsockopt (pos 3) ∷ bind (pos 3) 2000 ∷ [];
    })
unfolding lab_reti_di_calcolatori.Startup.all_digits lab_reti_di_calcolatori.Startup.digits_value
longest_server_start_run =
    longest_server_start willing (codes "server") (codes "000") b'2' refl (omega arith, omega arith)
      (λ call. omega arith)

line_server_2000x :
    line_server willing (codes "server" ∷ codes "2000x" ∷ [])
    ≡ line_server willing (codes "server" ∷ codes "2000" ∷ [])
unfolding lab_reti_di_calcolatori.Startup.all_digits lab_reti_di_calcolatori.Startup.digits_value
line_server_2000x =
    line_server_junk willing (codes "server") (codes "000") [] b'2' b'x' refl refl (omega arith)

longest_server_2000x : longest_server willing (codes "server" ∷ codes "2000x" ∷ []) ≡ some (exits 2)
longest_server_2000x = longest_server_junk willing (codes "server") (codes "2000") [] b'x' refl

word_sockets-ready_example : (word_sockets system 2000).outcome ≡ ready (pos 3 ∷ pos 4 ∷ [])
word_sockets-ready_example =
    (word_sockets-ready system 2000 (pos 3 ∷ pos 4 ∷ [])).1
      (omega arith, omega arith, omega arith, omega arith, omega arith, omega arith, refl)
