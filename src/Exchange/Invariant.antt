-- ===== src/Exchange/Invariant.antt =====
-- What every action keeps: the bytes that the client has written, those under way to it and those
-- that the server will still send are together the same.
use lab_reti_di_calcolatori.Base.{
  ℕ, ◌+◌, ◌≤◌, ◌<◌, ◌^◌, true, false, not, List, [], ◌∷◌, ◌++◌, if◌then◌else◌, ◌≡◌, refl, sym, ap,
  ◌∙◌, arith, length, length-append, append_assoc, Bool-cases, inl, inr,
}
use lab_reti_di_calcolatori.Base.Int.{ℤ, pos}
use lab_reti_di_calcolatori.Base.CString.{Bytes}
use lab_reti_di_calcolatori.Lines.{is_riga}
use lab_reti_di_calcolatori.Lines.Text.{join, lines, prepend, kept, Fits}
use lab_reti_di_calcolatori.Lines.Transfer.{kept_step}
use lab_reti_di_calcolatori.Exchange.{Outcome, and_then, disabled, fault, moved, Config, Link}

-- The property of the next state, if there is one; no run is undefined.
abbrev pub Keeps : {A : Type 0} → (A → Type 0) → Outcome A → Type 0
Keeps P disabled = Unit
Keeps P fault = ⊥
Keeps P (moved a) = P a

pub Keeps-and_then :
    {A B : Type 0} (P : A → Type 0) (Q : B → Type 0) (o : Outcome A) (next : A → Outcome B)
    → Keeps P o
    → ((a : A) → P a → Keeps Q (next a))
    → Keeps Q (and_then o next)
Keeps-and_then P Q disabled next h k = tt
Keeps-and_then P Q fault next h k = h
Keeps-and_then P Q (moved a) next h k = k a h

pub Keeps-weaker :
    {A : Type 0} (P Q : A → Type 0) (o : Outcome A) → ((a : A) → P a → Q a) → Keeps P o → Keeps Q o
Keeps-weaker P Q disabled k h = tt
Keeps-weaker P Q fault k h = h
Keeps-weaker P Q (moved a) k h = k a h

pub Keeps-both :
    {A : Type 0} (P Q : A → Type 0) (o : Outcome A)
    → Keeps P o
    → Keeps Q o
    → Keeps (λ a. P a × Q a) o
Keeps-both P Q disabled h k = tt
Keeps-both P Q fault h k = h
Keeps-both P Q (moved a) h k = (h, k)

-- The property of the next state, if there is one.
abbrev pub Holds : {A : Type 0} → (A → Type 0) → Outcome A → Type 0
Holds P disabled = Unit
Holds P fault = Unit
Holds P (moved a) = P a

pub Keeps-Holds : {A : Type 0} (P : A → Type 0) (o : Outcome A) → Keeps P o → Holds P o
Keeps-Holds P disabled h = tt
Keeps-Holds P fault h = tt
Keeps-Holds P (moved a) h = h

pub Holds-and_then :
    {A B : Type 0} (P : A → Type 0) (Q : B → Type 0) (o : Outcome A) (next : A → Outcome B)
    → Holds P o
    → ((a : A) → P a → Holds Q (next a))
    → Holds Q (and_then o next)
Holds-and_then P Q disabled next h k = tt
Holds-and_then P Q fault next h k = tt
Holds-and_then P Q (moved a) next h k = k a h

pub Holds-both :
    {A : Type 0} (P Q : A → Type 0) (o : Outcome A)
    → Holds P o
    → Holds Q o
    → Holds (λ a. P a × Q a) o
Holds-both P Q disabled h k = tt
Holds-both P Q fault h k = tt
Holds-both P Q (moved a) h k = (h, k)

pub Keeps-with :
    {A : Type 0} (P Q : A → Type 0) (o : Outcome A)
    → Keeps P o
    → Holds Q o
    → Keeps (λ a. P a × Q a) o
Keeps-with P Q disabled h k = tt
Keeps-with P Q fault h k = h
Keeps-with P Q (moved a) h k = (h, k)

pub join-append : (a b : List Bytes) → join (a ++ b) ≡ join a ++ join b
join-append [] b = refl
join-append (x ∷ a) b = rw (join-append a b) (sym (append_assoc x (join a) (join b)))

pub sent_line :
    (riga : ℤ) (n : ℕ) (sent : List Bytes) (to_client : Bytes) (ls : List Bytes) (line : Bytes)
    → sent ≡ []
    → (to_client ++ join (if not (is_riga riga n) then sent ++ line ∷ [] else sent))
        ++ join (kept riga (n + 1) ls)
      ≡ to_client ++ join (kept riga n (line ∷ ls))
sent_line riga n sent to_client ls line e =
    let now = if not (is_riga riga n) then sent ++ line ∷ [] else sent in
    append_assoc to_client (join now) (join (kept riga (n + 1) ls))
    ∙ ap (λ (b : Bytes). to_client ++ b)
        (sym (join-append now (kept riga (n + 1) ls))
          ∙ ap join (
              kept_step riga n sent ls line
              ∙ ap (λ (a : List Bytes). a ++ kept riga n (line ∷ ls)) e))

abbrev pub cfg : ℤ → ℕ → Config
cfg riga dim = record { riga = riga; dim = pos dim }

-- The bytes that the server will send for the bytes that are still to come.
abbrev pub future : ℤ → Link → Bytes → Bytes
future riga l rest =
    if l.finished
    then []
    else join (kept riga (l.server.line_counter + 1) (prepend l.server.buff (lines rest)))

module _ (riga : ℤ) (dim : ℕ) (all : Bytes) where
  -- The client has read all of the file but `left`.
  pub record Inv (left : Bytes) (l : Link) : Type 0 where
    pub read : ℕ
    pub counted : l.server.i ≡ pos read
    pub whole : read + length (l.to_server ++ left) ≡ dim
    pub small : l.finished ≡ false → l.server.line_counter ≤ read
    pub dim_small : dim + 1 < 2 ^ 31
    pub flushed : l.server.sent ≡ []
    pub fits : Fits (prepend l.server.buff (lines (l.to_server ++ left)))
    pub ended : l.finished ≡ true → length (l.to_server ++ left) ≡ 0
    pub stream : l.written ++ (l.to_client ++ future riga l (l.to_server ++ left)) ≡ all

  pub not_finished :
      (left rest : Bytes) (c : ℕ) (l : Link)
      → l.to_server ≡ c ∷ rest
      → Inv left l
      → l.finished ≡ false
  not_finished left rest c l e h = elim (Bool-cases l.finished) [
    | inl done ↦
        let none_left = h.ended done in
        let some_left = length-append l.to_server left in
        let one = ap length e in absurd (omega arith)
    | inr more ↦ more
  ]
