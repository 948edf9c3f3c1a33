-- ===== src/Voting/Collect.antt =====
-- The loop that fills the parallel arrays is the tally of the rows in use.
use lab_reti_di_calcolatori.Base.{
  ℕ, suc, ◌+◌, ◌<◌, ◌≤◌, ◌^◌, true, false, none, some, List, [], ◌∷◌, ◌++◌, map, ◌≡◌, refl, sym, ap,
  ◌∙◌, arith, length, length-map, map_around, get_elem?, store, replicate, get_elem?-append,
  store-append, All, length-append,
}
use native.Mathlib.Nat.{zero-add}
use lab_reti_di_calcolatori.Base.Int.{ℤ, ◌+ℤ◌, pos_part, neg_part, IsInt, add_int_total}
use lab_reti_di_calcolatori.Base.CString.{Bytes, str_eq}
use lab_reti_di_calcolatori.Voting.{
  Registro, Tally, mark_null, mark_l, nome_size, index_of_giudice, first_vote, more_votes,
  tally_row,
}
use lab_reti_di_calcolatori.Voting.Standings.{Entry, name, points, known, add_vote}
use lab_reti_di_calcolatori.Voting.Arrays.{
  places, Named, index_of_giudice_new, aggiungi_giudice_new, add_vote_new, known-Split,
  index_of_giudice-known, add_vote-known,
}

-- The arrays hold the entries, with `free` places behind them.
pub record Holds (t : Tally) (es : List Entry) (free : ℕ) : Type 0 where
  pub unused : List ℤ
  pub giudici_eq : t.giudici ≡ places es free
  pub voti_eq : t.voti ≡ map points es ++ unused
  pub unused_length : length unused ≡ free
  pub counted : t.n_giudici ≡ length es

-- A vote total that a further row cannot take out of an `int`, by the rows that may still come.
abbrev pub max_voto : ℕ
max_voto = 2 ^ 22

abbrev pub IsWithin : ℕ → ℤ → Type 0
IsWithin b z = (pos_part z ≤ b) × (neg_part z ≤ b)

abbrev pub Bounded : ℕ → List Entry → Type 0
Bounded b = All (λ e. IsWithin b (points e))

-- A row in use that the ranking can read: its judge has a name of its own that fits its place.
pub record IsRow (r : Registro) : Type 0 where
  pub in_use : str_eq r.giudice mark_l ≡ false
  pub named : str_eq r.giudice mark_null ≡ false
  pub fits : length r.giudice < nome_size
  pub small : IsWithin max_voto r.voto

length_around {ℓ} :
    {A : Type ℓ} (xs : List A) (y z : A) (ys : List A)
    → length (xs ++ y ∷ ys) ≡ length (xs ++ z ∷ ys)
length_around [] y z ys = refl
length_around (x ∷ xs) y z ys = ap suc (length_around xs y z ys)

pub +ℤ-IsWithin : (b c : ℕ) (v w : ℤ) → IsWithin b v → IsWithin c w → IsWithin (b + c) (v +ℤ w)
unfolding ◌+ℤ◌
+ℤ-IsWithin b c v w hv hw = ground arith

pub Bounded-add_vote :
    (g : Bytes) (b : ℕ) (v : ℤ) (es : List Entry)
    → IsWithin max_voto v
    → Bounded b es
    → Bounded (b + max_voto) (add_vote g v es)
Bounded-add_vote g b v [] h k = (omega arith, tt)
Bounded-add_vote g b v ((x, w) ∷ es) h k = ground (
  arith,
  Bounded-add_vote g b v es h k.1,
  +ℤ-IsWithin b max_voto w v k.0 h,
  Bounded-mono b es k.1,
)
  where
    Bounded-mono : (b : ℕ) (es : List Entry) → Bounded b es → Bounded (b + max_voto) es
    Bounded-mono b [] k = tt
    Bounded-mono b ((x, w) ∷ es) k = (omega arith, Bounded-mono b es k.1)

pub Named-add_vote :
    (g : Bytes) (v : ℤ) (es : List Entry)
    → str_eq g mark_null ≡ false
    → Named es
    → Named (add_vote g v es)
Named-add_vote g v [] h k = (h, tt)
Named-add_vote g v ((x, w) ∷ es) h k = ground (arith, Named-add_vote g v es h k.1)

cons_of_length {ℓ} :
    {A : Type ℓ} (xs : List A) (n : ℕ)
    → length xs ≡ suc n
    → (y : A) × (ys : List A) × (xs ≡ y ∷ ys) × (length ys ≡ n)
cons_of_length [] n h = absurd (omega arith)
cons_of_length (x ∷ xs) n h = (x, xs, refl, omega arith)

-- A judge that is new gets its place, with the votes of the registry row that has the place's index.
pub tally_row_new :
    (reg : List Registro) (r lead : Registro) (t : Tally) (es : List Entry) (free : ℕ)
    → Holds t es (suc free)
    → Named es
    → IsRow r
    → known r.giudice es ≡ false
    → get_elem? reg (length es) ≡ some lead
    → (t' : Tally) × (tally_row reg r t ≡ some t') × Holds t' (add_vote r.giudice lead.voto es) free
unfolding tally_row first_vote
tally_row_new reg r lead t es free h n ok k at =
    let (u, us, cut, rest) = cons_of_length h.unused free h.unused_length in
    let found : index_of_giudice r.giudice 0 t.giudici ≡ none =
      rw h.giudici_eq (index_of_giudice_new r.giudice 0 (suc free) es n k) in
    let added = aggiungi_giudice_new r.giudice 0 free es n ok.fits in
    let stored : store t.voti (0 + length es) lead.voto ≡ some (map points es ++ lead.voto ∷ us) =
      rw (h.voti_eq, cut)
        (store-append (map points es) us u lead.voto (0 + length es)
          (omega (arith, length-map points es))) in
    let at' : get_elem? reg (0 + length es) ≡ some lead = rw zero-add at in
    (
      record {
        giudici = map name es ++ r.giudice ∷ replicate free mark_null;
        voti = map points es ++ lead.voto ∷ us;
        n_giudici = t.n_giudici + 1;
      },
      rw (found, tally_row) (rw (h.giudici_eq) (rw (added) (rw (at', first_vote) (rw (stored))))),
      rw (add_vote_new r.giudice lead.voto es k) (record {
        unused = us;
        giudici_eq = sym (map_around name es ((r.giudice, lead.voto) ∷ []) _);
        voti_eq = sym (map_around points es ((r.giudice, lead.voto) ∷ []) us);
        unused_length = rest;
        counted = omega (arith, length-append es ((r.giudice, lead.voto) ∷ []), h.counted);
      }),
    )

All-before {ℓ κ} : {A : Type ℓ} (P : A → Type κ) (xs ys : List A) → All P (xs ++ ys) → All P xs
All-before P [] ys h = tt
All-before P (x ∷ xs) ys h = (h.0, All-before P xs ys h.1)

All-at {ℓ κ} :
    {A : Type ℓ} (P : A → Type κ) (xs : List A) (y : A) (ys : List A) → All P (xs ++ y ∷ ys) → P y
All-at P [] y ys h = h.0
All-at P (x ∷ xs) y ys h = All-at P xs y ys h.1

sum-IsInt :
    (b : ℕ) (v w : ℤ) → IsWithin b v → IsWithin max_voto w → b + max_voto < 2 ^ 31 → IsInt (v +ℤ w)
unfolding ◌+ℤ◌
sum-IsInt b v w hv hw lt = ground arith

tally_row_split :
    (reg : List Registro) (r : Registro) (t : Tally) (es later : List Entry) (w : ℤ) (free : ℕ)
    → Holds t (es ++ (r.giudice, w) ∷ later) free
    → Named es
    → IsRow r
    → known r.giudice es ≡ false
    → IsInt (w +ℤ r.voto)
    → (t' : Tally) × (tally_row reg r t ≡ some t')
      × Holds t' (add_vote r.giudice r.voto (es ++ (r.giudice, w) ∷ later)) free
unfolding tally_row more_votes
tally_row_split reg r t es later w free h n ok k int =
    let e : Entry = (r.giudice, w) in
    let found : index_of_giudice r.giudice 0 t.giudici ≡ some (0 + length es) =
      rw (h.giudici_eq, map_around name es (e ∷ later))
        (index_of_giudice-known r.giudice 0 es _ n k ok.named) in
    let at : 0 + length es ≡ length (map points es) = omega (arith, length-map points es) in
    let read : get_elem? t.voti (0 + length es) ≡ some w =
      rw (h.voti_eq, map_around points es (e ∷ later))
        (get_elem?-append (map points es) _ w _ at) in
    let stored : store t.voti (0 + length es) (w +ℤ r.voto)
        ≡ some (map points es ++ (w +ℤ r.voto) ∷ (map points later ++ h.unused)) =
      rw (h.voti_eq, map_around points es (e ∷ later)) (store-append (map points es) _ w _ _ at) in
    (
      record t { voti = map points es ++ (w +ℤ r.voto) ∷ (map points later ++ h.unused) },
      rw (found, tally_row) (rw (read, more_votes) (rw (add_int_total w r.voto int) (rw stored))),
      rw (add_vote-known r.giudice r.voto w es later k) (record {
        unused = h.unused;
        giudici_eq =
            h.giudici_eq
            ∙ map_around name es (e ∷ later) _
            ∙ sym (map_around name es ((r.giudice, w +ℤ r.voto) ∷ later) _);
        voti_eq = sym (map_around points es ((r.giudice, w +ℤ r.voto) ∷ later) _);
        unused_length = h.unused_length;
        counted = h.counted ∙ length_around es e (r.giudice, w +ℤ r.voto) later;
      }),
    )

pub tally_row-known :
    (reg : List Registro) (r : Registro) (t : Tally) (es : List Entry) (free b : ℕ)
    → Holds t es free
    → Named es
    → IsRow r
    → Bounded b es
    → b + max_voto < 2 ^ 31
    → known r.giudice es ≡ true
    → (t' : Tally) × (tally_row reg r t ≡ some t') × Holds t' (add_vote r.giudice r.voto es) free
tally_row-known reg r t es free b h n ok bd lt k =
    let s = known-Split r.giudice es k in
    rw s.splits (
      tally_row_split reg r t s.before s.behind s.points_of free (rw s.splits at h)
        (All-before _ s.before _ (rw s.splits at n)) ok s.first
        (sum-IsInt b s.points_of r.voto (All-at _ s.before _ _ (rw s.splits at bd)) ok.small lt))
