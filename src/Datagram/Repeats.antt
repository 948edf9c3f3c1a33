-- ===== src/Datagram/Repeats.antt =====
-- A request whose copies reach the server more than once.
use lab_reti_di_calcolatori.Base.{
  ℕ, zero, suc, ◌+◌, ◌≤◌, ◌<◌, arith, subst, true, false, Option, some, [], ◌∷◌, ◌≡◌, refl,
  replicate,
}
use lab_reti_di_calcolatori.Base.Int.{ℤ}
use lab_reti_di_calcolatori.Base.CString.{Bytes}
use lab_reti_di_calcolatori.Datagram.{Round, reply, deliver, receive_answer, call_server}

-- The request is sent and its first copy is answered; no answer to another copy comes back.
abbrev pub repeated : ℕ → Round
repeated k = record { sends = true; answered = true ∷ replicate k false; receives = true }

-- `Holds d` is what holds when the server has served `d` copies, up to a limit.
module _ {S : Type 0} (serve : Bytes → S → Option (ℤ × S)) (Holds : ℕ → S → Type 0) (limit : ℕ)
    (datagram : Bytes)
    (again : (d : ℕ) (s : S)
      → d < limit
      → Holds d s
      → (a : ℤ) × (t : S) × (serve datagram s ≡ some (a, t)) × Holds (d + 1) t) where
  deliver-unanswered :
      (k d : ℕ) (s : S)
      → d + k ≤ limit
      → Holds d s
      → (t : S) × (deliver serve (replicate k false) datagram s ≡ some ([], t)) × Holds (d + k) t
  unfolding deliver
  deliver-unanswered zero d s room h =
      let same : d ≡ d + 0 = omega arith in (s, refl, subst (λ e. Holds e s) same h)
  deliver-unanswered (suc k) d s room h =
      let (a, t, served, held) = again d s (omega arith) h in
      let (u, rest, last) = deliver-unanswered k (d + 1) t (omega arith) held in
      let same : d + 1 + k ≡ d + suc k = omega arith in
      (u, rw served (rw rest), subst (λ e. Holds e u) same last)

  -- The client has the answer to the first copy, and the others leave what they can repeat.
  pub call_server-repeated :
      (k d : ℕ) (answer : ℤ) (s t : S)
      → serve datagram s ≡ some (answer, t)
      → d + k ≤ limit
      → Holds d t
      → (u : S) × (call_server serve (repeated k) datagram [] s
          ≡ some (record { result = reply answer; queue = []; server = u }))
        × Holds (d + k) u
  unfolding call_server deliver receive_answer
  call_server-repeated k d answer s t served room held =
      let (u, rest, last) = deliver-unanswered k d t room held in (u, rw served (rw rest), last)
