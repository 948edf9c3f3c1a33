-- ===== src/Voting/LateJudge.antt =====
-- A judge that comes after a repeated one: the place of the judge is not the index of its row.
use lab_reti_di_calcolatori.Base.{
  true, false, some, List, [], ◌∷◌, ◌≡◌, refl, arith, length, replicate,
}
use lab_reti_di_calcolatori.Base.Int.{ℤ, ◌+ℤ◌}
use lab_reti_di_calcolatori.Base.CString.{str_eq}
use lab_reti_di_calcolatori.Voting.{Registro, Tally, mark_null, collect}
use lab_reti_di_calcolatori.Voting.Collect.{Holds, IsRow, max_voto, tally_row_new, tally_row-known}
use lab_reti_di_calcolatori.Voting.Ranked.{IsUnused, collect_unused}

-- Where the second row repeats the judge of the first and the third has another judge, the loop
-- gives that other judge the votes of the second row, not its own.
pub collect_late_judge :
    (stack : List ℤ) (r0 r1 r2 : Registro) (unused : List Registro)
    → length stack ≡ 256
    → IsRow r0
    → IsRow r1
    → IsRow r2
    → IsUnused unused
    → str_eq r1.giudice r0.giudice ≡ true
    → str_eq r2.giudice r0.giudice ≡ false
    → (u : Tally) × (collect
          (r0 ∷ r1 ∷ r2 ∷ unused)
          (r0 ∷ r1 ∷ r2 ∷ unused)
          (record { giudici = replicate 256 mark_null; voti = stack; n_giudici = 0 })
        ≡ some u)
      × Holds u ((r0.giudice, r0.voto +ℤ r1.voto) ∷ (r2.giudice, r1.voto) ∷ []) 254
unfolding collect
collect_late_judge stack r0 r1 r2 unused len ok0 ok1 ok2 rest again other =
    let reg = r0 ∷ r1 ∷ r2 ∷ unused in
    let start : Tally = record { giudici = replicate 256 mark_null; voti = stack; n_giudici = 0 } in
    let (t0, s0, h0) =
      tally_row_new reg r0 r0 start [] 255
        (record {
          unused = stack;
          giudici_eq = refl;
          voti_eq = refl;
          unused_length = len;
          counted = refl;
        })
        tt ok0 refl refl in
    let (t1, s1, h1) =
      tally_row-known reg r1 t0 ((r0.giudice, r0.voto) ∷ []) 255 max_voto h0 (ok0.named, tt) ok1
        (ok0.small, tt) (omega arith) (rw again) in
    let h1' : Holds t1 ((r0.giudice, r0.voto +ℤ r1.voto) ∷ []) 255 = rw again at h1 in
    let (t2, s2, h2) =
      tally_row_new reg r2 r1 t1 ((r0.giudice, r0.voto +ℤ r1.voto) ∷ []) 254 h1' (ok0.named, tt) ok2
        (rw other) refl in
    (
      t2,
      rw (ok0.in_use, s0)
          (rw (ok1.in_use, s1) (rw (ok2.in_use, s2) (collect_unused reg unused t2 rest))),
      rw other at h2,
    )
