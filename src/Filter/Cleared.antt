-- ===== src/Filter/Cleared.antt =====
-- The filter where its array starts out cleared.
use lab_reti_di_calcolatori.Base.{
  ℕ, zero, suc, ◌+◌, ◌≤◌, ◌<◌, Bool, true, false, ◌||◌, some, [], ◌∷◌, ◌++◌, ◌==◌, if◌then◌else◌,
  ◌≡◌, refl, ap, ◌∙◌, arith, length, length-append, store, store-append, replicate, All-append,
  Bool-cases, inl, inr, append_assoc,
}
use lab_reti_di_calcolatori.Base.CString.{Bytes, Without}
use lab_reti_di_calcolatori.Filter.{strchr, skim, skimmed, copy, consumatore}

abbrev pub member : ℕ → Bytes → Bool
member c [] = false
member c (x ∷ xs) = x == c || member c xs

-- The text without the characters of the filter and without zero bytes.
abbrev pub without : Bytes → Bytes → Bytes
without filter [] = []
without filter (c ∷ cs) =
    if member c filter || c == 0 then without filter cs else c ∷ without filter cs

strchr_lem :
    (w zs : Bytes) (c : ℕ) → Without 0 w → strchr (w ++ 0 ∷ zs) c ≡ some (member c w || c == 0)
unfolding strchr
strchr_lem [] zs c h = ground arith
strchr_lem (x ∷ w) zs c (nz, h) = elim (Bool-cases (x == c)) [
  | inl same ↦ rw same refl
  | inr other ↦ rw other (rw nz (strchr_lem w zs c h))
]

-- What the array and the counter `i` are after the loop.
record Skimmed (cs w : Bytes) (i n : ℕ) : Type 0 where
  kept : Bytes
  free : ℕ
  runs :
      skim cs i (length w) (w ++ replicate (suc n) 0)
      ≡ some (i + length cs, kept ++ replicate (suc free) 0)
  without : Without 0 kept
  same : (c : ℕ) → member c kept ≡ (member c w || member c cs)
  room : length kept + free ≡ length w + n
  short : length kept ≤ i + length cs

member-append : (c : ℕ) (a b : Bytes) → member c (a ++ b) ≡ (member c a || member c b)
member-append c [] b = refl
member-append c (x ∷ a) b = let h = member-append c a b in ground arith

member_again :
    (c d : ℕ) (w cs : Bytes)
    → member c w ≡ true
    → (member d w || member d cs) ≡ (member d w || (c == d || member d cs))
member_again c d w cs h = elim (Bool-cases (c == d)) [
  | inl e ↦
      let same : c ≡ d = ground arith in
      let there : member d w ≡ true = rw same at h in rw there refl
  | inr other ↦ rw other refl
]

member_new :
    (c d : ℕ) (w cs : Bytes)
    → (member d (w ++ c ∷ []) || member d cs) ≡ (member d w || (c == d || member d cs))
member_new c d w cs = let h = member-append d w (c ∷ []) in ground arith

member_front : (c d : ℕ) (cs : Bytes) → (member d (c ∷ []) || member d cs) ≡ member d (c ∷ cs)
member_front c d cs = ground arith

skim_lem :
    (cs w : Bytes) (i n : ℕ)
    → Without 0 cs
    → Without 0 w
    → length w ≤ i
    → length cs ≤ n
    → Skimmed cs w i n
unfolding skim
skim_lem [] w i n hc hw le room = record {
  kept = w;
  free = n;
  runs = ap (λ k. some (k, w ++ replicate (suc n) 0)) (omega arith);
  without = hw;
  same = λ c. ground arith;
  room = refl;
  short = omega arith;
}
skim_lem (c ∷ cs) w i zero hc hw le room = absurd (omega arith)
skim_lem (c ∷ cs) w i (suc n) (nz, hc) hw le room =
    let found = strchr_lem w (replicate (suc n) 0) c hw in
    elim (Bool-cases (member c w)) [
      | inl old ↦
          let r = skim_lem cs w (i + 1) (suc n) hc hw (omega arith) (omega arith) in
          record {
            kept = r.kept;
            free = r.free;
            runs =
                rw (found, old)
                  (r.runs ∙ ap (λ k. some (k, r.kept ++ replicate (suc r.free) 0)) (omega arith));
            without = r.without;
            same = λ d. r.same d ∙ member_again c d w cs old;
            room = r.room;
            short = let h = r.short in omega arith;
          }
      | inr new ↦
          let w' = w ++ c ∷ [] in
          let longer = length-append w (c ∷ []) in
          let r =
            skim_lem cs w' (i + 1) n hc (All-append _ w (c ∷ []) hw (nz, tt)) (omega arith)
              (omega arith) in
          let stored = store-append w (replicate (suc n) 0) 0 c (length w) refl in
          let shape = append_assoc w (c ∷ []) (replicate (suc n) 0) in
          let behind : length w' ≡ length w + 1 = omega arith in
          record {
            kept = r.kept;
            free = r.free;
            runs =
                rw (found, new, nz)
                  (rw stored (
                    rw (← shape, ← behind)
                      (r.runs
                        ∙ ap (λ k. some (k, r.kept ++ replicate (suc r.free) 0)) (omega arith))));
            without = r.without;
            same = λ d. r.same d ∙ member_new c d w cs;
            room = let h = r.room in omega arith;
            short = let h = r.short in omega arith;
          }
    ]

store_zero :
    (w : Bytes) (n k : ℕ)
    → length w ≤ k
    → k < length w + n
    → store (w ++ replicate n 0) k 0 ≡ some (w ++ replicate n 0)
store_zero [] zero k h l = absurd (omega arith)
store_zero [] (suc n) zero h l = refl
store_zero [] (suc n) (suc k) h l = rw (store_zero [] n k (omega arith) (omega arith)) refl
store_zero (x ∷ w) n zero h l = absurd (omega arith)
store_zero (x ∷ w) n (suc k) h l = rw (store_zero w n k (omega arith) (omega arith)) refl

copy_lem :
    (kept zs filter input : Bytes)
    → Without 0 kept
    → ((c : ℕ) → member c kept ≡ member c filter)
    → copy (kept ++ 0 ∷ zs) input ≡ some (without filter input)
unfolding copy
copy_lem kept zs filter [] h same = refl
copy_lem kept zs filter (c ∷ input) h same =
    rw (strchr_lem kept zs c h, same c)
      (rw (copy_lem kept zs filter input h same) (elim (Bool-cases (member c filter || c == 0)) [
        | inl dropped ↦ rw dropped refl
        | inr written ↦ rw written refl
      ]))

-- Over a cleared array, a filter of at least one character that leaves room for its terminator
-- writes the input without the characters of the filter and without zero bytes.
pub consumatore_cleared :
    (c : ℕ) (cs input : Bytes) (n : ℕ)
    → Without 0 (c ∷ cs)
    → length (c ∷ cs) < n
    → consumatore (replicate n 0) (c ∷ cs) input ≡ some (without (c ∷ cs) input)
unfolding consumatore skimmed
consumatore_cleared c cs input zero h room = absurd (omega arith)
consumatore_cleared c cs input (suc zero) h room = absurd (omega arith)
consumatore_cleared c cs input (suc (suc n)) (nz, h) room =
    let r = skim_lem cs (c ∷ []) 1 n h (nz, tt) (omega arith) (omega arith) in
    let fits = r.room in
    let short = r.short in
    let ended = store_zero r.kept (suc r.free) (1 + length cs) short (omega arith) in
    let same : (d : ℕ) → member d r.kept ≡ member d (c ∷ cs) =
      λ d. r.same d ∙ member_front c d cs in
    rw r.runs (rw ended (copy_lem r.kept (replicate r.free 0) (c ∷ cs) input r.without same))
