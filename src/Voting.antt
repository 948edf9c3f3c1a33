-- ===== src/Voting.antt =====
-- The voting server of exercise 9, esercitazione9/server.c: the registry of candidates and judges
-- (`reg`), its initialisation, the vote for a candidate and the ranking of the judges. A string is
-- its content; `none` is a run that C leaves undefined (an access past an array, a signed overflow).
pub mod Standings
pub mod Arrays
pub mod Collect
pub mod Ranked
pub mod Totals
pub mod Sorting
pub mod Order
pub mod Ranking
pub mod Votes
pub mod Session
pub mod LateJudge
mod Tests
use mathlib.Core.Option
use lab_reti_di_calcolatori.Base.{
  ℕ, zero, suc, ◌+◌, ◌-◌, Bool, true, false, Option, none, some, List, [], ◌∷◌, map, ltb,
  if◌then◌else◌, ◌>>=◌, length, get_elem?, store, replicate,
}
use lab_reti_di_calcolatori.Base.Int.{ℤ, pos, negsuc, add_int, ltb_ℤ}
use lab_reti_di_calcolatori.Base.CString.{Bytes, codes, str_eq}

pub record Registro : Type 0 where
  pub candidato : Bytes
  pub giudice : Bytes
  pub categoria : Bytes
  pub nome_file : Bytes
  pub fase : Bytes
  pub voto : ℤ

-- `reg`, the static `done` of `inizializza` and the static `res` of `classifica_giudici_1_svc`.
pub record Server : Type 0 where
  pub reg : List Registro
  pub done : Bool
  pub res : List Bytes

abbrev pub reg_size : ℕ
reg_size = 256

-- The size of a row of `char giudici[256][30]`.
abbrev pub nome_size : ℕ
nome_size = 30

-- The mark of an unused row of the registry, and that of a free place among the judges.
abbrev pub mark_l : Bytes
mark_l = codes "L"

abbrev pub mark_null : Bytes
mark_null = codes "NULL"

-- What the program has in memory when it starts: static data is zero.
abbrev pub boot : Server
boot = record {
  reg = replicate reg_size (record {
    candidato = [];
    giudice = [];
    categoria = [];
    nome_file = [];
    fase = [];
    voto = pos 0;
  });
  done = false;
  res = replicate 256 [];
}

abbrev pub blank_row : Registro
blank_row = record {
  candidato = mark_l;
  giudice = mark_l;
  categoria = mark_l;
  nome_file = mark_l;
  fase = mark_l;
  voto = negsuc 0;
}

abbrev pub entered : Bytes → Bytes → Bytes → Bytes → Registro
entered candidato giudice categoria nome_file = record {
  candidato = candidato;
  giudice = giudice;
  categoria = categoria;
  nome_file = nome_file;
  fase = codes "B";
  voto = pos 0;
}

abbrev pub row_0 : Registro
row_0 = entered (codes "candidato1") (codes "giudice1") (codes "O") (codes "/tmp/candidati/file1")

abbrev pub row_1 : Registro
row_1 = entered (codes "candidato2") (codes "giudice2") (codes "M") (codes "/tmp/candidati/file2")

abbrev pub row_2 : Registro
row_2 = entered (codes "candidato3") (codes "giudice2") (codes "O") (codes "/tmp/candidati/file3")

-- The loop that marks every row as unused, and the three rows that are entered after it.
unfoldable pub load_registro : List Registro → Option (List Registro)
load_registro reg = do
  r0 ← store (map (λ _. blank_row) reg) 0 row_0
  r1 ← store r0 1 row_1
  store r1 2 row_2

unfoldable pub inizializza : Server → Option Server
unfolding load_registro
inizializza s =
    if s.done
    then some s
    else Option.map (λ reg. record s { reg = reg; done = true }) (load_registro s.reg)

-- The loop of `indexOfGiudice` from place `i`; `none` is the result -1.
unfoldable pub index_of_giudice : Bytes → ℕ → List Bytes → Option ℕ
index_of_giudice giudice i [] = none
index_of_giudice giudice i (x ∷ xs) =
    if str_eq x mark_null
    then none
    else if str_eq giudice x
    then some i
    else index_of_giudice giudice (i + 1) xs

-- The loop of `aggiungiGiudice` from place `i`: the index, `none` for -1, and the new array. The
-- name is copied into a row of 30 bytes.
unfoldable pub aggiungi_giudice : Bytes → ℕ → List Bytes → Option (Option ℕ × List Bytes)
aggiungi_giudice giudice i [] = some (none, [])
aggiungi_giudice giudice i (x ∷ xs) =
    if str_eq x mark_null
    then if ltb (length giudice) nome_size then some (some i, giudice ∷ xs) else none
    else Option.map (λ r. (r.0, x ∷ r.1)) (aggiungi_giudice giudice (i + 1) xs)

-- The parallel arrays of the ranking and the number of judges.
pub record Tally : Type 0 where
  pub giudici : List Bytes
  pub voti : List ℤ
  pub n_giudici : ℕ

-- `voti[indexPlaced] = reg[indexPlaced].voto`; the place -1 is out of both arrays.
unfoldable pub first_vote : List Registro → Option ℕ → List Bytes → Tally → Option Tally
first_vote reg none giudici t = none
first_vote reg (some k) giudici t = do
  row ← get_elem? reg k
  voti ← store t.voti k row.voto
  some (record { giudici = giudici; voti = voti; n_giudici = t.n_giudici + 1 })

-- `voti[index] += reg[i].voto`.
unfoldable pub more_votes : ℕ → ℤ → Tally → Option Tally
more_votes i voto t = do
  v ← get_elem? t.voti i
  total ← add_int v voto
  voti ← store t.voti i total
  some (record t { voti = voti })

-- One round of the loop that fills the parallel arrays.
unfoldable pub tally_row : List Registro → Registro → Tally → Option Tally
tally_row reg r t = elim (index_of_giudice r.giudice 0 t.giudici) [
  | none ↦ aggiungi_giudice r.giudice 0 t.giudici >>= (λ p. first_vote reg p.0 p.1 t)
  | some i ↦ more_votes i r.voto t
]

-- The loop, on the rows that are left; it stops at the first unused row.
unfoldable pub collect : List Registro → List Registro → Tally → Option Tally
collect reg [] t = some t
collect reg (r ∷ rows) t =
    let next = tally_row reg r t >>= collect reg rows in
    if str_eq r.giudice mark_l then some t else next

-- The exchange of the elements `j` and `j - 1` of an array.
unfoldable pub exchange {ℓ} : {A : Type ℓ} → ℕ → List A → Option (List A)
exchange j xs = do
  a ← get_elem? xs j
  b ← get_elem? xs (j - 1)
  ys ← store xs j b
  store ys (j - 1) a

-- The body of the sort: the greater total moves one place to the front, with its judge.
unfoldable pub sort_step : ℕ → Tally → Option Tally
sort_step j t = do
  a ← get_elem? t.voti j
  b ← get_elem? t.voti (j - 1)
  let swapped = do
    voti ← exchange j t.voti
    giudici ← exchange j t.giudici
    some (record t { voti = voti; giudici = giudici })
  if ltb_ℤ b a then swapped else some t

-- The inner loop, `for (j = nGiudici - 1; j > i; j--)`, by the rounds left.
unfoldable pub sort_inner : ℕ → ℕ → Tally → Option Tally
sort_inner zero j t = some t
sort_inner (suc rounds) j t = sort_step j t >>= sort_inner rounds (j - 1)

-- The outer loop, `for (i = 0; i < nGiudici - 1; i++)`, by the rounds left.
unfoldable pub sort_outer : ℕ → ℕ → Tally → Option Tally
sort_outer zero i t = some t
sort_outer (suc rounds) i t =
    sort_inner (t.n_giudici - 1 - i) (t.n_giudici - 1) t >>= sort_outer rounds (i + 1)

-- The two loops that fill the output: free places first, then the judges up to the first free one.
unfoldable pub fill_null : List Bytes → List Bytes → List Bytes
fill_null [] nomi = nomi
fill_null (g ∷ gs) [] = []
fill_null (g ∷ gs) (x ∷ nomi) = (if str_eq g mark_null then mark_null else x) ∷ fill_null gs nomi

unfoldable pub fill_giudici : List Bytes → List Bytes → List Bytes
fill_giudici [] nomi = nomi
fill_giudici (g ∷ gs) [] = []
fill_giudici (g ∷ gs) (x ∷ nomi) = if str_eq g mark_null then x ∷ nomi else g ∷ fill_giudici gs nomi

-- `classifica_giudici_1_svc`. `memset` clears the first bytes of every name, which empties it;
-- `stack` is what the array `voti` holds before it is written.
unfoldable pub classifica_giudici : List ℤ → Server → Option (List Bytes × Server)
classifica_giudici stack s0 = do
  s ← inizializza s0
  let free = replicate 256 mark_null
  t ← collect s.reg s.reg (record { giudici = free; voti = stack; n_giudici = 0 })
  u ← sort_outer (t.n_giudici - 1) 0 t
  let cleared = map (λ (_ : Bytes). codes "") s.res
  let res = fill_giudici u.giudici (fill_null u.giudici cleared)
  some (res, record s { res = res })

pub record InputEsprimiVoto : Type 0 where
  pub candidato : Bytes
  pub op : Bytes

-- The loop of either branch: the vote of each row of the candidate changes by `delta`.
unfoldable pub vote_rows : ℤ → Bytes → List Registro → Option (List Registro)
vote_rows delta candidato [] = some []
vote_rows delta candidato (r ∷ rows) =
    let next = do
      voto ← if str_eq r.candidato candidato then add_int r.voto delta else some r.voto
      rest ← vote_rows delta candidato rows
      some (record r { voto = voto } ∷ rest)
    in if str_eq r.candidato mark_l then some (r ∷ rows) else next

-- `esprimi_voto_1_svc`: the operation "a" adds a vote, any other takes one away.
unfoldable pub esprimi_voto : InputEsprimiVoto → Server → Option Server
esprimi_voto input s0 = do
  s ← inizializza s0
  let delta = if str_eq input.op (codes "a") then pos 1 else negsuc 0
  reg ← vote_rows delta input.candidato s.reg
  some (record s { reg = reg })
