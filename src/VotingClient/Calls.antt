-- ===== src/VotingClient/Calls.antt =====
-- What the ranking of the server, esercitazione9/server.c, is by the votes of the candidates.
use lab_reti_di_calcolatori.Base.{
  ℕ, zero, suc, ◌+◌, ◌≤◌, true, some, List, [], ◌∷◌, map, ◌≡◌, refl, ap, subst, ◌∙◌, arith, length,
  length-append, length-map, length-replicate, All, All-replicate, replicate,
}
use lab_reti_di_calcolatori.Base.Int.{ℤ, pos, ◌+ℤ◌, +ℤ-zero}
use lab_reti_di_calcolatori.Base.CString.{Bytes, codes, str_eq, str_eq_refl}
use lab_reti_di_calcolatori.Voting.{
  Server, mark_null, boot, row_0, row_1, blank_row, inizializza, classifica_giudici,
}
use lab_reti_di_calcolatori.Voting.Standings.{Entry, name}
use lab_reti_di_calcolatori.Voting.Arrays.{places, Named}
use lab_reti_di_calcolatori.Voting.Collect.{IsWithin, max_voto}
use lab_reti_di_calcolatori.Voting.Totals.{standings}
use lab_reti_di_calcolatori.Voting.Ranking.{
  sort_entries, sort_entries-Named, length-sort_entries, classifica_giudici-sort_entries,
}
use lab_reti_di_calcolatori.Voting.Session.{
  registry, no_rows, Started, inizializza-boot, inizializza_done, Started-IsReady,
}
use lab_reti_di_calcolatori.VotingClient.{print_giudici}
use lab_reti_di_calcolatori.VotingClient.Commands.{Votes, no_votes, ranking}

abbrev pub voted : Votes → List Bytes → Server
voted v res = record {
  reg = registry v.candidato1 v.candidato2 v.candidato3 no_rows;
  done = true;
  res = res;
}

-- The server has these votes, or will have them once it is initialised; none is above `b`.
pub record At (b : ℕ) (v : Votes) (s : Server) : Type 0 where
  pub res : List Bytes
  pub names : length res ≡ 256
  pub ready : inizializza s ≡ some (voted v res)
  pub small : IsWithin b v.candidato1 × IsWithin b v.candidato2 × IsWithin b v.candidato3

pub boot-At : At 0 no_votes boot
boot-At = record {
  res = replicate 256 [];
  names = length-replicate 256 (codes "");
  ready = inizializza-boot;
  small = omega arith;
}

pub inizializza-voted :
    (v : Votes) (res : List Bytes) → inizializza (voted v res) ≡ some (voted v res)
unfolding inizializza
inizializza-voted v res = refl

print_giudici_free : (m : ℕ) → print_giudici (replicate m mark_null) ≡ []
unfolding print_giudici
print_giudici_free zero = refl
print_giudici_free (suc m) = rw (str_eq_refl mark_null) (print_giudici_free m)

print_giudici-places :
    (es : List Entry) (m : ℕ) → Named es → print_giudici (places es m) ≡ map name es
unfolding print_giudici
print_giudici-places [] m n = print_giudici_free m
print_giudici-places (e ∷ es) m n = rw n.0 (ap (◌∷◌ (name e)) (print_giudici-places es m n.1))

-- The two judges with the totals of the registry.
abbrev judged : Votes → List Entry
judged v = (codes "giudice1", v.candidato1) ∷ (codes "giudice2", v.candidato2 +ℤ v.candidato3) ∷ []

standings-judged :
    (v : Votes)
    → let reg = registry v.candidato1 v.candidato2 v.candidato3 no_rows in
      standings
        (record row_0 { voto = v.candidato1 } ∷ record row_1 { voto = v.candidato2 } ∷ [])
        reg
      ≡ judged v
unfolding str_eq
standings-judged v =
    ap
      (λ n.
        (codes "giudice1", n) ∷ (codes "giudice2", v.candidato2 +ℤ (v.candidato3 +ℤ pos 0)) ∷ [])
      (+ℤ-zero v.candidato1)
    ∙ ap (λ n. (codes "giudice1", v.candidato1) ∷ (codes "giudice2", v.candidato2 +ℤ n) ∷ [])
        (+ℤ-zero v.candidato3)

judged-Named : (v : Votes) → Named (judged v)
unfolding str_eq
judged-Named v = (refl, (refl, tt))

names-ranking : (v : Votes) → map name (sort_entries (judged v)) ≡ ranking v
names-ranking v = ground arith

registry_small :
    (v : Votes) (b : ℕ)
    → b ≤ max_voto
    → IsWithin b v.candidato1 × IsWithin b v.candidato2 × IsWithin b v.candidato3
    → All (λ r. IsWithin max_voto r.voto) (registry v.candidato1 v.candidato2 v.candidato3 no_rows)
registry_small v b le h = (
  omega arith,
  (
    omega arith,
    (omega arith, All-replicate (λ r. IsWithin max_voto r.voto) 253 blank_row (omega arith)),
  ),
)

classifica_giudici-inizializza :
    (stack : List ℤ) (s i : Server)
    → inizializza s ≡ some i
    → i.done ≡ true
    → classifica_giudici stack s ≡ classifica_giudici stack i
unfolding classifica_giudici
classifica_giudici-inizializza stack s i ready done = rw (ready, inizializza_done i done)

length-places : (es : List Entry) (m : ℕ) → length (places es m) ≡ length es + m
length-places es m = omega (
  arith,
  length-append (map name es) (replicate m mark_null),
  length-map name es,
  length-replicate m mark_null,
)

-- The ranking shows the two judges by their votes, and leaves the votes as they are.
pub classifica_giudici-At :
    (stack : List ℤ) (b : ℕ) (v : Votes) (s : Server)
    → length stack ≡ 256
    → b ≤ max_voto
    → At b v s
    → (giudici : List Bytes) × (t : Server) × (classifica_giudici stack s ≡ some (giudici, t))
      × (print_giudici giudici ≡ ranking v)
      × At b v t
classifica_giudici-At stack b v s len le at =
    let i = voted v at.res in
    let started : Started i = record {
      done = refl;
      v0 = v.candidato1;
      v1 = v.candidato2;
      v2 = v.candidato3;
      reg_eq = refl;
      names = at.names;
    } in
    let es = judged v in
    let nomi = places (sort_entries es) 254 in
    let sorted =
      classifica_giudici-sort_entries stack i _ _ no_rows len
        (Started-IsReady i started (registry_small v b le at.small)) in
    (
      nomi,
      voted v nomi,
      classifica_giudici-inizializza stack s i at.ready refl
          ∙ subst
              (λ es.
                classifica_giudici stack i
                ≡ some (places (sort_entries es) 254, voted v (places (sort_entries es) 254)))
              (standings-judged v) sorted,
      print_giudici-places (sort_entries es) 254 (sort_entries-Named es (judged-Named v))
          ∙ names-ranking v,
      record {
        res = nomi;
        names = length-places (sort_entries es) 254 ∙ ap (λ n. n + 254) (length-sort_entries es);
        ready = inizializza-voted v nomi;
        small = at.small;
      },
    )
