-- ===== src/Voting/Votes.antt =====
-- `esprimi_voto_1_svc`: what a vote changes, and that votes undo and commute.
use lab_reti_di_calcolatori.Base.{
  true, false, some, List, [], ◌∷◌, ◌≡◌, refl, arith, if◌then◌else◌, All, map, ◌++◌,
}
use lab_reti_di_calcolatori.Base.Int.{ℤ, pos, negsuc, ◌+ℤ◌, IsInt, add_int_total}
use lab_reti_di_calcolatori.Base.CString.{Bytes, codes, str_eq}
use lab_reti_di_calcolatori.Voting.{
  Server, Registro, InputEsprimiVoto, mark_l, inizializza, vote_rows, esprimi_voto,
}

-- One vote more for "a", one less for any other operation.
abbrev pub delta_of : Bytes → ℤ
delta_of op = if str_eq op (codes "a") then pos 1 else negsuc 0

abbrev pub bump : ℤ → Bytes → Registro → Registro
bump delta candidato r =
    if str_eq r.candidato candidato then record r { voto = r.voto +ℤ delta } else r

-- The list is empty or begins with a row that has no candidate.
abbrev pub IsVacant : List Registro → Type 0
IsVacant [] = Unit
IsVacant (r ∷ rows) = str_eq r.candidato mark_l ≡ true

-- A row with a candidate whose votes can change by one either way.
abbrev pub IsOpen : Registro → Type 0
IsOpen r =
    (str_eq r.candidato mark_l ≡ false) × IsInt (r.voto +ℤ pos 1) × IsInt (r.voto +ℤ negsuc 0)

pub vote_rows_vacant :
    (delta : ℤ) (c : Bytes) (rows : List Registro)
    → IsVacant rows
    → vote_rows delta c rows ≡ some rows
unfolding vote_rows
vote_rows_vacant delta c [] h = refl
vote_rows_vacant delta c (r ∷ rows) h = rw h

vote_rows-map :
    (op c : Bytes) (rows vacant : List Registro)
    → All IsOpen rows
    → IsVacant vacant
    → vote_rows (delta_of op) c (rows ++ vacant) ≡ some (map (bump (delta_of op) c) rows ++ vacant)
unfolding vote_rows
vote_rows-map op c [] vacant h v = unfold vote_rows in vote_rows_vacant (delta_of op) c vacant v
vote_rows-map op c (r ∷ rows) vacant h v = ground (
  arith,
  vote_rows-map op c rows vacant h.1 v,
  add_int_total r.voto (pos 1) h.0.1,
  add_int_total r.voto (negsuc 0) h.0.2,
)

-- On an initialised server, where every row in use has room for the change of its votes, a vote
-- adds one to the votes of each row of its candidate if the operation is "a", and takes one away
-- otherwise; no other row, field or static variable changes.
pub esprimi_voto_bumps :
    (input : InputEsprimiVoto) (s : Server) (used vacant : List Registro)
    → s.done ≡ true
    → s.reg ≡ used ++ vacant
    → All IsOpen used
    → IsVacant vacant
    → esprimi_voto input s
      ≡ some (record s { reg = map (bump (delta_of input.op) input.candidato) used ++ vacant })
unfolding esprimi_voto inizializza
esprimi_voto_bumps input s used vacant done parts open_rows v =
    rw (done, parts) (rw (vote_rows-map input.op input.candidato used vacant open_rows v))
