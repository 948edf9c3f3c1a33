-- ===== src/Exchange/Owed.antt =====
-- The client waits only for a line that is on its way or that the server owes it.
use lab_reti_di_calcolatori.Base.{
  ℕ, ◌+◌, ◌≤◌, Bool, true, false, not, [], ◌∷◌, ◌++◌, ◌==◌, if◌then◌else◌, ◌≡◌, refl, ap, arith,
  length, length-append, nil_of_length, append-nil, Bool-cases, inl, inr,
}
use lab_reti_di_calcolatori.Base.Int.{ℤ}
use lab_reti_di_calcolatori.Base.CString.{Bytes}
use lab_reti_di_calcolatori.Lines.{is_riga}
use lab_reti_di_calcolatori.Lines.Text.{join}
use lab_reti_di_calcolatori.Exchange.{Link, flush, serve_byte, serve_last}
use lab_reti_di_calcolatori.Exchange.Invariant.{Keeps, cfg, Inv, not_finished}
use lab_reti_di_calcolatori.Exchange.Server.{
  serve_newline, serve_other, behind_newline, behind_other,
}
use lab_reti_di_calcolatori.Exchange.Last.{serve_last_cases, serve_last_runs}

abbrev pub newlines : Bytes → ℕ
newlines [] = 0
newlines (c ∷ cs) = if c == b'\n' then newlines cs + 1 else newlines cs

-- How many lines the server sends for these bytes, behind `n` newlines.
abbrev pub owed : ℤ → ℕ → Bytes → ℕ
owed riga n [] = 0
owed riga n (c ∷ cs) =
    let line = if is_riga riga (n + 1) then owed riga (n + 1) cs else owed riga (n + 1) cs + 1 in
    if c == b'\n' then line else owed riga n cs

pub newlines-append :
    (b : Bytes) (c : ℕ)
    → newlines (b ++ c ∷ []) ≡ (if c == b'\n' then newlines b + 1 else newlines b)
newlines-append [] c = refl
newlines-append (x ∷ b) c = let h = newlines-append b c in ground arith

pub newlines-le-length : (b : Bytes) → newlines b ≤ length b
newlines-le-length [] = omega arith
newlines-le-length (c ∷ b) = let h = newlines-le-length b in ground arith

pub owed-append :
    (riga : ℤ) (n m : ℕ) (b : Bytes) (c : ℕ)
    → m ≡ n + newlines b + 1
    → owed riga n (b ++ c ∷ [])
      ≡ owed riga n b + (if c == b'\n' then (if is_riga riga m then 0 else 1) else 0)
owed-append riga n m [] c e = let same : m ≡ n + 1 = omega arith in rw same (ground arith)
owed-append riga n m (x ∷ b) c e = elim (Bool-cases (x == b'\n')) [
  | inl newline ↦ let ih = owed-append riga (n + 1) m b c (ground arith) in ground arith
  | inr other ↦ let ih = owed-append riga n m b c (ground arith) in ground arith
]

pub front_nil : (a b : Bytes) → a ++ b ≡ [] → a ≡ []
front_nil a b e =
    let size = length-append a b in let none_here = ap length e in nil_of_length a (omega arith)

module _ (riga : ℤ) where
  -- The client has sent `count` newlines; if it waits, a byte is on its way or owed.
  pub record Num (count : ℕ) (waiting : Bool) (l : Link) : Type 0 where
    pub numbered : l.finished ≡ false → count ≡ l.server.line_counter + newlines l.to_server
    pub owes : waiting ≡ true → 1 ≤ length l.to_client + owed riga l.server.line_counter l.to_server

  module _ (dim : ℕ) (all : Bytes) where
    newline-Num :
        (left rest : Bytes) (count : ℕ) (waiting : Bool) (l : Link)
        → l.to_server ≡ b'\n' ∷ rest
        → Inv riga dim all left l
        → Num count waiting l
        → Num count waiting (flush (record l { to_server = rest }) (behind_newline riga l.server))
    newline-Num left rest count waiting l e h num =
        let more = not_finished riga dim all left rest b'\n' l e h in
        let numbered = rw e at (num.numbered more) in
        record {
          numbered = λ _. ground arith;
          owes = λ w.
              let owes = rw e at (num.owes w) in
              elim (Bool-cases (is_riga riga (l.server.line_counter + 1))) [
                | inl this ↦ rw (this, h.flushed, append-nil l.to_client) (rw this at owes)
                | inr line ↦
                    let line_size = length-append l.server.buff (b'\n' ∷ []) in
                    let nil = append-nil (l.server.buff ++ b'\n' ∷ []) in
                    let size = length-append l.to_client (l.server.buff ++ b'\n' ∷ []) in
                    rw (line, h.flushed) (rw nil (omega arith))
              ];
        }

    other-Num :
        (left rest : Bytes) (c count : ℕ) (waiting : Bool) (l : Link)
        → (c == b'\n') ≡ false
        → l.to_server ≡ c ∷ rest
        → Inv riga dim all left l
        → Num count waiting l
        → Num count waiting (flush (record l { to_server = rest }) (behind_other c l.server))
    other-Num left rest c count waiting l other e h num = record {
      numbered = λ more. rw other at (rw e at (num.numbered more));
      owes = λ w. rw (h.flushed, append-nil l.to_client) (rw other at (rw e at (num.owes w)));
    }

    pub serve_byte-Num :
        (left : Bytes) (count : ℕ) (waiting : Bool) (l : Link)
        → Inv riga dim all left l
        → Num count waiting l
        → Keeps (Num count waiting) (serve_byte (cfg riga dim) l l.to_server)
    unfolding serve_byte
    serve_byte-Num left count waiting l h num = go l.to_server refl
      where
        go :
            (b : Bytes)
            → l.to_server ≡ b
            → Keeps (Num count waiting) (serve_byte (cfg riga dim) l b)
        go [] e = tt
        go (c ∷ rest) e = elim (Bool-cases (c == b'\n')) [
          | inl newline ↦
              let c' : c ≡ b'\n' = ground arith in
              let e' = rw c' at e in
              rw (c', serve_newline riga dim all left rest l e' h)
                (newline-Num left rest count waiting l e' h num)
          | inr other ↦
              rw (serve_other riga dim all left rest c l other e h)
                (other-Num left rest c count waiting l other e h num)
        ]

    pub serve_last-Num :
        (left : Bytes) (count : ℕ) (waiting : Bool) (l : Link)
        → Inv riga dim all left l
        → Num count waiting l
        → Keeps (Num count waiting) (serve_last (cfg riga dim) l)
    serve_last-Num left count waiting l h num = elim (serve_last_cases riga dim all left l h) [
      | inl closed ↦ rw closed tt
      | inr (e, more) ↦ rw (serve_last_runs riga dim all left l e more h) (record {
        numbered = λ more'. cc;
        owes = λ w.
            let sent =
              join (
                if not (is_riga riga (l.server.line_counter + 1))
                then l.server.buff ∷ []
                else []) in
            let size = length-append l.to_client sent in
            let here : l.to_server ≡ [] = front_nil l.to_server left e in
            let owes = rw here at (num.owes w) in rw here (omega arith);
      })
    ]
