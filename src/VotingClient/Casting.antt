-- ===== src/VotingClient/Casting.antt =====
-- What a vote does to the votes of the candidates, in the server of esercitazione9/server.c.
use lab_reti_di_calcolatori.Base.{
  ℕ, ◌+◌, ◌≤◌, Bool, true, false, some, List, [], ◌∷◌, ◌++◌, map, ◌≡◌, refl, ap, ◌∙◌, arith,
  Bool-cases, inl, inr, All,
}
use lab_reti_di_calcolatori.Base.Int.{ℤ, pos, negsuc}
use lab_reti_di_calcolatori.Base.CString.{Bytes, codes, str_eq}
use lab_reti_di_calcolatori.Voting.{
  Server, Registro, InputEsprimiVoto, mark_l, row_0, row_1, row_2, inizializza, esprimi_voto,
}
use lab_reti_di_calcolatori.Voting.Collect.{IsWithin, max_voto, +ℤ-IsWithin}
use lab_reti_di_calcolatori.Voting.Votes.{IsOpen, bump, delta_of, esprimi_voto_bumps}
use lab_reti_di_calcolatori.Voting.Session.{no_rows, inizializza_done, IsVacant-no_rows}
use lab_reti_di_calcolatori.VotingClient.Commands.{Votes, op_word, change, counted, count_vote}
use lab_reti_di_calcolatori.VotingClient.Calls.{voted, At, inizializza-voted}

esprimi_voto-inizializza :
    (input : InputEsprimiVoto) (s i : Server)
    → inizializza s ≡ some i
    → i.done ≡ true
    → esprimi_voto input s ≡ esprimi_voto input i
unfolding esprimi_voto
esprimi_voto-inizializza input s i ready done = rw (ready, inizializza_done i done)

delta_of-op_word : (up : Bool) → delta_of (op_word up) ≡ change up
unfolding str_eq
delta_of-op_word true = refl
delta_of-op_word false = refl

bump-counted :
    (up : Bool) (nome : Bytes) (r : Registro) (w : ℤ)
    → bump (change up) nome (record r { voto = w })
      ≡ record r { voto = counted up nome r.candidato w }
bump-counted up nome r w = elim (Bool-cases (str_eq r.candidato nome)) [
  | inl same ↦ rw same
  | inr other ↦ rw other
]

counted-IsWithin :
    (up : Bool) (nome candidato : Bytes) (b : ℕ) (w : ℤ)
    → IsWithin b w
    → IsWithin (b + 1) (counted up nome candidato w)
counted-IsWithin up nome candidato b w h =
    let grown = +ℤ-IsWithin b 1 w (change up) h in
    elim (Bool-cases (str_eq candidato nome)) [
      | inl same ↦ rw same (grown (ground arith))
      | inr other ↦ rw other (omega arith)
    ]

IsOpen-IsWithin :
    (r : Registro) (b : ℕ) (w : ℤ)
    → str_eq r.candidato mark_l ≡ false
    → b ≤ max_voto
    → IsWithin b w
    → IsOpen (record r { voto = w })
IsOpen-IsWithin r b w named le h =
    let up = +ℤ-IsWithin b 1 w (pos 1) h (omega arith) in
    let down = +ℤ-IsWithin b 1 w (negsuc 0) h (omega arith) in (named, omega arith, omega arith)

-- The three rows in use.
abbrev rows : Votes → List Registro
rows v =
    record row_0 { voto = v.candidato1 }
    ∷ record row_1 { voto = v.candidato2 }
    ∷ record row_2 { voto = v.candidato3 }
    ∷ []

rows-IsOpen :
    (v : Votes) (b : ℕ)
    → b ≤ max_voto
    → IsWithin b v.candidato1 × IsWithin b v.candidato2 × IsWithin b v.candidato3
    → All IsOpen (rows v)
unfolding str_eq
rows-IsOpen v b le (small0, small1, small2) = (
  IsOpen-IsWithin row_0 b v.candidato1 refl le small0,
  (
    IsOpen-IsWithin row_1 b v.candidato2 refl le small1,
    (IsOpen-IsWithin row_2 b v.candidato3 refl le small2, tt),
  ),
)

bump-count_vote :
    (up : Bool) (nome : Bytes) (v : Votes)
    → map (bump (delta_of (op_word up)) nome) (rows v) ≡ rows (count_vote up nome v)
bump-count_vote up nome v =
    let c0 = bump-counted up nome row_0 v.candidato1 in
    let c1 = bump-counted up nome row_1 v.candidato2 in
    let c2 = bump-counted up nome row_2 v.candidato3 in
    ap (λ d. map (bump d nome) (rows v)) (delta_of-op_word up) ∙ (λ k. c0 k ∷ c1 k ∷ c2 k ∷ [])

-- A vote counts for its candidate.
pub esprimi_voto-At :
    (up : Bool) (nome : Bytes) (b : ℕ) (v : Votes) (s : Server)
    → b ≤ max_voto
    → At b v s
    → (t : Server) × (esprimi_voto (record { candidato = nome; op = op_word up }) s ≡ some t)
      × At (b + 1) (count_vote up nome v) t
esprimi_voto-At up nome b v s le at =
    let i = voted v at.res in
    let input : InputEsprimiVoto = record { candidato = nome; op = op_word up } in
    let (small0, small1, small2) = at.small in
    let bumped =
      esprimi_voto_bumps input i (rows v) no_rows refl refl (rows-IsOpen v b le at.small)
        IsVacant-no_rows in
    (
      voted (count_vote up nome v) at.res,
      esprimi_voto-inizializza input s i at.ready refl
          ∙ bumped
          ∙ ap (λ used. some (record i { reg = used ++ no_rows })) (bump-count_vote up nome v),
      record {
        res = at.res;
        names = at.names;
        ready = inizializza-voted _ at.res;
        small = (
          counted-IsWithin up nome (codes "candidato1") b v.candidato1 small0,
          counted-IsWithin up nome (codes "candidato2") b v.candidato2 small1,
          counted-IsWithin up nome (codes "candidato3") b v.candidato3 small2,
        );
      },
    )
