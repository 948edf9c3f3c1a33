-- ===== src/Producer/Filtered.antt =====
-- The filter of exercise 0 on what the producer has written.
use lab_reti_di_calcolatori.Base.{
  ℕ, ◌+◌, ◌*◌, ◌<◌, true, ◌||◌, some, [], ◌∷◌, ◌++◌, ◌==◌, ◌≡◌, refl, sym, ap, ◌∙◌, arith, length,
  replicate, Bool-cases, inl, inr,
}
use lab_reti_di_calcolatori.Base.CString.{Bytes, Without}
use lab_reti_di_calcolatori.Producer.{System, int_bytes, write_all, produttore}
use lab_reti_di_calcolatori.Filter.{consumatore}
use lab_reti_di_calcolatori.Filter.Cleared.{member, without, consumatore_cleared}

abbrev pub ints : Bytes → Bytes
ints [] = []
ints (c ∷ cs) = int_bytes c ++ ints cs

length-ints : (cs : Bytes) → length (ints cs) ≡ 4 * length cs
length-ints [] = refl
length-ints (c ∷ cs) = let rest = length-ints cs in omega arith

write_all_lem :
    (sys : System) (n : ℕ) (input : Bytes)
    → ((k : ℕ) → sys.writes k ≡ 4)
    → write_all sys n input ≡ record { code = 0; file = ints input }
unfolding write_all
write_all_lem sys n [] w = refl
write_all_lem sys n (c ∷ input) w = rw (w n, write_all_lem sys (n + 1) input w) refl

zero_dropped : (filter cs : Bytes) → without filter (0 ∷ cs) ≡ without filter cs
zero_dropped filter cs = ground arith

without-ints : (filter cs : Bytes) → without filter (ints cs) ≡ without filter cs
without-ints filter [] = refl
without-ints filter (c ∷ cs) =
    let zeros =
      zero_dropped filter (0 ∷ 0 ∷ ints cs)
      ∙ (zero_dropped filter (0 ∷ ints cs) ∙ zero_dropped filter (ints cs)) in
    let rest = zeros ∙ without-ints filter cs in
    elim (Bool-cases (member c filter || c == 0)) [
      | inl dropped ↦ rw dropped rest
      | inr kept ↦ rw kept (ap (◌∷◌ c) rest)
    ]

-- Where the file can be created and no `write` fails, the producer exits with 0 and has written four
-- bytes for each character, and the filter over a cleared array writes from them the text without its
-- characters, as it does from the text itself: it drops the zero bytes that the producer adds. The
-- filter has at least one character and room for its terminator.
pub produttore-consumatore :
    (sys : System) (program file_out input : Bytes) (c n : ℕ) (cs : Bytes)
    → sys.creates file_out ≡ true
    → ((k : ℕ) → sys.writes k ≡ 4)
    → Without 0 (c ∷ cs)
    → length (c ∷ cs) < n
    → let out = produttore sys (program ∷ file_out ∷ []) input in
      (out.code ≡ 0)
      × (length out.file ≡ 4 * length input)
      × (consumatore (replicate n 0) (c ∷ cs) out.file ≡ some (without (c ∷ cs) input))
      × (consumatore (replicate n 0) (c ∷ cs) out.file ≡ consumatore (replicate n 0) (c ∷ cs) input)
unfolding produttore
produttore-consumatore sys program file_out input c n cs created w h room =
    let filtered : consumatore (replicate n 0) (c ∷ cs) (ints input)
        ≡ some (without (c ∷ cs) input) =
      consumatore_cleared c cs (ints input) n h room ∙ ap some (without-ints (c ∷ cs) input) in
    rw created (
      rw (write_all_lem sys 0 input w) (
        refl,
        length-ints input,
        filtered,
        filtered ∙ sym (consumatore_cleared c cs input n h room),
      ))
