-- ===== src/Exchange/Printed.antt =====
-- The client's array: `recv` does not end it with a zero byte, and `printf` reads up to one.
use lab_reti_di_calcolatori.Base.{ℕ, ◌<◌, ◌==◌, arith, length, min, Bool-cases, inl, inr}
use lab_reti_di_calcolatori.Base.Array.{Closed, Closed-read_string, Closed-overlay}
use lab_reti_di_calcolatori.Exchange.{
  Outcome, and_then, disabled, fault, moved, Link, store_chunk, take_chunk, printed,
}
use lab_reti_di_calcolatori.Exchange.Invariant.{Keeps, Keeps-with, Keeps-Holds}

pub store_chunk-Closed :
    (n : ℕ) (l : Link)
    → n < 256
    → Closed l.buff
    → Keeps (λ (t : Link). Closed t.buff) (store_chunk n l)
unfolding store_chunk
store_chunk-Closed n l few closed =
    let k = min n (min 256 (length l.to_client)) in
    elim (Bool-cases (k == 0)) [
      | inl none_here ↦ rw none_here tt
      | inr some_here ↦
          rw some_here (Closed-overlay k l.to_client l.buff (omega arith) (omega arith) closed)
    ]

printed-Closed :
    (P : Link → Type 0) (o : Outcome Link)
    → Keeps (λ l. P l × Closed l.buff) o
    → Keeps (λ l. P l × Closed l.buff) (and_then o printed)
printed-Closed P disabled h = tt
printed-Closed P fault h = h
printed-Closed P (moved l) h = let (s, reads) = Closed-read_string l.buff h.1 in rw (reads, Keeps) h

-- A piece of fewer than 256 bytes is printed from an array whose last byte is zero, and leaves it so.
pub take_chunk-Closed :
    (P : Link → Type 0) (n : ℕ) (l : Link)
    → n < 256
    → Closed l.buff
    → Keeps P (store_chunk n l)
    → Keeps (λ t. P t × Closed t.buff) (take_chunk n l)
unfolding take_chunk
take_chunk-Closed P n l few closed h = printed-Closed P (store_chunk n l) (
    Keeps-with P (λ (t : Link). Closed t.buff) (store_chunk n l) h
      (Keeps-Holds (λ (t : Link). Closed t.buff) (store_chunk n l)
        (store_chunk-Closed n l few closed)))
