-- ===== src/Voting/Tests.antt =====
-- Runs of the voting server, and the theorems at concrete inputs.
use lab_reti_di_calcolatori.Base.{
  ℕ, ◌≡◌, refl, true, Option, some, List, [], ◌∷◌, ◌++◌, map, arith, replicate, length-replicate,
  ◌>>=◌,
}
use lab_reti_di_calcolatori.Base.Int.{ℤ, pos, negsuc}
use lab_reti_di_calcolatori.Base.CString.{Bytes, codes, str_eq}
use lab_reti_di_calcolatori.Voting.{
  Registro, Server, Tally, entered, blank_row, mark_null, boot, inizializza, index_of_giudice,
  aggiungi_giudice, first_vote, more_votes, tally_row, collect, exchange, sort_step, sort_inner,
  sort_outer, fill_null, fill_giudici, classifica_giudici, vote_rows, esprimi_voto,
}
use lab_reti_di_calcolatori.Voting.Standings.{total}
use lab_reti_di_calcolatori.Voting.Collect.{IsRow, Holds}
use lab_reti_di_calcolatori.Voting.Ranking.{IsReady, Ranks, classifica_giudici-Ranks}
use lab_reti_di_calcolatori.Voting.Totals.{standings}
use lab_reti_di_calcolatori.Voting.Votes.{IsOpen, esprimi_voto_bumps}
use lab_reti_di_calcolatori.Voting.Session.{Session, start, vote, Session-ranking}
use lab_reti_di_calcolatori.Voting.LateJudge.{collect_late_judge}

abbrev stack : List ℤ
stack = replicate 256 (pos 7)

abbrev after_vote : Option (List Bytes)
after_vote = do
  s ← esprimi_voto (record { candidato = codes "candidato3"; op = codes "a" }) boot
  r ← classifica_giudici stack s
  some r.0

after_vote_ranking :
    after_vote ≡ some (codes "giudice2" ∷ codes "giudice1" ∷ replicate 254 mark_null)
unfolding inizializza index_of_giudice aggiungi_giudice first_vote more_votes tally_row collect
    exchange sort_step sort_inner sort_outer fill_null fill_giudici classifica_giudici vote_rows
    esprimi_voto str_eq lab_reti_di_calcolatori.Base.Int.add_int
after_vote_ranking = refl

abbrev row : Bytes → Bytes → ℤ → Registro
row candidato giudice voto = record (entered candidato giudice (codes "O") (codes "f")) {
  voto = voto;
}

abbrev ann : Registro
ann = row (codes "ann") (codes "x") (pos 2)

abbrev bob : Registro
bob = row (codes "bob") (codes "y") (pos 3)

abbrev eve : Registro
eve = row (codes "eve") (codes "x") (pos 4)

abbrev server : List Registro → Server
server reg = record { reg = reg; done = true; res = replicate 256 [] }

abbrev contest : Server
contest = server (ann ∷ bob ∷ eve ∷ blank_row ∷ [])

contest-IsReady : IsReady contest (ann ∷ bob ∷ []) (eve ∷ []) (blank_row ∷ [])
unfolding str_eq
contest-IsReady = record {
  done = refl;
  ranked = record {
    parts = refl;
    rows_ok = ((row_ok, (row_ok', tt)), (row_ok'', tt));
    own = (refl, (refl, tt));
    again = (refl, tt);
    rest_unused = refl;
    in_size = omega arith;
  };
  names = length-replicate 256 (codes "");
}
  where
    row_ok : IsRow ann
    row_ok = record { in_use = refl; named = refl; fits = omega arith; small = omega arith }

    row_ok' : IsRow bob
    row_ok' = record { in_use = refl; named = refl; fits = omega arith; small = omega arith }

    row_ok'' : IsRow eve
    row_ok'' = record { in_use = refl; named = refl; fits = omega arith; small = omega arith }

classifica_giudici-Ranks_example : Ranks stack contest (standings (ann ∷ bob ∷ []) contest.reg) 254
classifica_giudici-Ranks_example =
    classifica_giudici-Ranks stack contest (ann ∷ bob ∷ []) (eve ∷ []) (blank_row ∷ [])
      (length-replicate 256 (pos 7)) contest-IsReady

contest-IsOpen : (IsOpen ann) × (IsOpen bob)
unfolding str_eq lab_reti_di_calcolatori.Base.Int.◌+ℤ◌
contest-IsOpen = ((refl, omega arith, omega arith), (refl, omega arith, omega arith))

esprimi_voto_bumps_example :
    esprimi_voto
      (record { candidato = codes "bob"; op = codes "a" })
      (server (ann ∷ bob ∷ blank_row ∷ []))
    ≡ some (server (ann ∷ row (codes "bob") (codes "y") (pos 4) ∷ blank_row ∷ []))
unfolding str_eq lab_reti_di_calcolatori.Base.Int.◌+ℤ◌
esprimi_voto_bumps_example =
    esprimi_voto_bumps (record { candidato = codes "bob"; op = codes "a" })
      (server (ann ∷ bob ∷ blank_row ∷ [])) (ann ∷ bob ∷ []) (blank_row ∷ []) refl refl
      (contest-IsOpen.0, (contest-IsOpen.1, tt)) refl

abbrev voted_reg : List Registro
voted_reg =
    entered (codes "candidato1") (codes "giudice1") (codes "O") (codes "/tmp/candidati/file1")
    ∷ record (entered (codes "candidato2") (codes "giudice2") (codes "M")
        (codes "/tmp/candidati/file2")) { voto = pos 1 }
    ∷ entered (codes "candidato3") (codes "giudice2") (codes "O") (codes "/tmp/candidati/file3")
    ∷ replicate 253 blank_row

one_vote : Session (server voted_reg)
unfolding str_eq vote_rows esprimi_voto inizializza lab_reti_di_calcolatori.Base.Int.add_int
one_vote = vote (record { candidato = codes "candidato2"; op = codes "a" }) start refl

Session-ranking_example :
    Ranks stack
      (server voted_reg)
      ((codes "giudice1", total (codes "giudice1") voted_reg)
        ∷ (codes "giudice2", total (codes "giudice2") voted_reg)
        ∷ [])
      254
Session-ranking_example =
    Session-ranking stack (server voted_reg) one_vote refl (length-replicate 256 (pos 7))
      (omega arith)

late_reg : IsRow ann × IsRow eve × IsRow bob
unfolding str_eq
late_reg = (
  record { in_use = refl; named = refl; fits = omega arith; small = omega arith },
  record { in_use = refl; named = refl; fits = omega arith; small = omega arith },
  record { in_use = refl; named = refl; fits = omega arith; small = omega arith },
)

-- The judge of bob, who has 3 votes, is ranked with the 4 votes of eve.
collect_late_judge_example :
    (u : Tally) × (collect
        (ann ∷ eve ∷ bob ∷ [])
        (ann ∷ eve ∷ bob ∷ [])
        (record { giudici = replicate 256 mark_null; voti = stack; n_giudici = 0 })
      ≡ some u)
    × Holds u ((codes "x", pos 6) ∷ (codes "y", pos 4) ∷ []) 254
unfolding str_eq lab_reti_di_calcolatori.Base.Int.◌+ℤ◌
collect_late_judge_example =
    collect_late_judge stack ann eve bob [] (length-replicate 256 (pos 7)) late_reg.0 late_reg.1
      late_reg.2 tt refl refl
