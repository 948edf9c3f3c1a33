-- ===== src/Exchange/Measure.antt =====
-- How many actions the two can still take.
use lab_reti_di_calcolatori.Base.{
  ℕ, ◌+◌, ◌*◌, ◌≤◌, Bool, true, false, not, List, [], ◌∷◌, ◌≡◌, refl, sym, ap, arith, length,
  length-append, Bool-cases, Option-cases, inl, inr,
}
use lab_reti_di_calcolatori.Base.Int.{ℤ}
use lab_reti_di_calcolatori.Base.CString.{Bytes, read_string}
use lab_reti_di_calcolatori.Exchange.{
  Outcome, disabled, fault, moved, and_then, Config, Link, Client, System, Action, send, serve,
  last, recv, send_byte, serve_byte, serve_last, store_chunk, take_chunk, printed, beside, act, run,
}

abbrev pub bit : Bool → ℕ
bit true = 1
bit false = 0

-- How many actions are left at most.
abbrev pub measure : System → ℕ
measure s =
    3 * length s.client.left
    + bit s.client.waiting
    + length s.link.to_server
    + bit (not s.link.finished)

moved_inj : {A : Type 0} (a b : A) → moved a ≡ moved b → a ≡ b
moved_inj a b h = ap (λ o. elim o [ disabled ↦ a | fault ↦ a | moved x ↦ x ]) h

and_then-moved :
    {A B : Type 0} (o : Outcome A) (next : A → Outcome B) (b : B)
    → and_then o next ≡ moved b
    → (a : A) × (o ≡ moved a) × (next a ≡ moved b)
and_then-moved disabled next b h = absurd (cc)
and_then-moved fault next b h = absurd (cc)
and_then-moved (moved a) next b h = (a, refl, h)

-- A link has less under way to the server, with what the server has still to do.
abbrev work : Link → ℕ
work l = length l.to_server + bit (not l.finished)

serve_byte-work :
    (c : Config) (l t : Link) (b : Bytes)
    → l.to_server ≡ b
    → serve_byte c l b ≡ moved t
    → work t + 1 ≤ work l
unfolding serve_byte
serve_byte-work c l t [] e h = ground arith
serve_byte-work c l t (x ∷ rest) e h = let size = ap length e in ground arith

serve_last-work : (c : Config) (l t : Link) → serve_last c l ≡ moved t → work t + 1 ≤ work l
unfolding serve_last
serve_last-work c l t h = ground arith

store_chunk-work : (n : ℕ) (l t : Link) → store_chunk n l ≡ moved t → work t ≤ work l
unfolding store_chunk
store_chunk-work n l t h = ground arith

printed-moved : (l t : Link) → printed l ≡ moved t → l ≡ t
printed-moved l t h = elim (Option-cases (read_string l.buff)) [
  | inl endless ↦ let no : fault ≡ moved t = rw (endless, printed) at h in absurd (cc)
  | inr (line, ends) ↦ moved_inj l t (rw (ends, printed) at h)
]

take_chunk-work : (n : ℕ) (l t : Link) → take_chunk n l ≡ moved t → work t ≤ work l
unfolding take_chunk
take_chunk-work n l t h =
    let (u, stored, prints) = and_then-moved (store_chunk n l) printed t h in
    let same = ap work (printed-moved u t prints) in
    let less = store_chunk-work n l u stored in omega arith

send_byte-measure :
    (riga : ℤ) (left : Bytes) (s t : System)
    → s.client.left ≡ left
    → send_byte riga left s ≡ moved t
    → measure t + 1 ≤ measure s
unfolding send_byte
send_byte-measure riga [] s t e h = ground arith
send_byte-measure riga (c ∷ rest) s t e h =
    let size = ap length e in let more = length-append s.link.to_server (c ∷ []) in ground arith

beside-moved :
    (c : Client) (o : Outcome Link) (t : System)
    → beside c o ≡ moved t
    → (l : Link) × (o ≡ moved l) × (t ≡ record { client = c; link = l })
beside-moved c disabled t h = ground arith
beside-moved c fault t h = ground arith
beside-moved c (moved l) t h = (l, refl, sym (moved_inj _ t h))

act-measure :
    (c : Config) (a : Action) (s t : System) → act c a s ≡ moved t → measure t + 1 ≤ measure s
unfolding act
act-measure c send s t h = send_byte-measure c.riga s.client.left s t refl h
act-measure c serve s t h =
    let (l, runs, e) = beside-moved s.client _ t h in
    let less = serve_byte-work c s.link l s.link.to_server refl runs in rw e (omega arith)
act-measure c last s t h =
    let (l, runs, e) = beside-moved s.client _ t h in
    let less = serve_last-work c s.link l runs in rw e (omega arith)
act-measure c (recv n) s t h = elim (Bool-cases s.client.waiting) [
  | inl waits ↦
      let (l, runs, e) =
        beside-moved (record s.client { waiting = false }) (take_chunk n s.link) t
          (rw waits at h) in
      let less = take_chunk-work n s.link l runs in rw (e, waits) (omega arith)
  | inr goes ↦ ground arith
]

pub run-measure :
    (c : Config) (actions : List Action) (s t : System)
    → run c actions s ≡ moved t
    → length actions + measure t ≤ measure s
unfolding run
run-measure c [] s t h = let same = moved_inj s t h in rw (← same) (omega arith)
run-measure c (a ∷ actions) s t h =
    let (u, first, rest) = and_then-moved (act c a s) (run c actions) t h in
    let now = act-measure c a s u first in let later = run-measure c actions u t rest in omega arith
