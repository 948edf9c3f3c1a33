-- ===== src/Voting/Session.antt =====
-- Every state that calls of the two procedures lead to from the start of the program.
use mathlib.Core.Bool.{false≢true}
use lab_reti_di_calcolatori.Base.{
  suc, true, false, some, List, [], ◌∷◌, ◌≡◌, refl, sym, ap, subst, ◌∙◌, arith, if◌then◌else◌,
  bind-eq-some, some_inj, ◌⊎◌, inl, inr, length, length-map, length-replicate, All, replicate,
}
use lab_reti_di_calcolatori.Base.Int.{ℤ, pos, add_int}
use lab_reti_di_calcolatori.Base.CString.{Bytes, codes, str_eq}
use lab_reti_di_calcolatori.Voting.{
  Server, Registro, InputEsprimiVoto, mark_l, boot, blank_row, row_0, row_1, row_2, inizializza,
  collect, sort_outer, fill_null, fill_giudici, classifica_giudici, vote_rows, esprimi_voto,
}
use lab_reti_di_calcolatori.Voting.Standings.{total}
use lab_reti_di_calcolatori.Voting.Collect.{IsWithin, max_voto}
use lab_reti_di_calcolatori.Voting.Votes.{IsVacant, vote_rows_vacant}
use lab_reti_di_calcolatori.Voting.Ranking.{IsReady, Ranks, classifica_giudici-Ranks}

-- The states that a run of the server goes through.
pub data Session : Server → Type 0 where
  start : Session boot
  vote :
      {s t : Server} (input : InputEsprimiVoto)
      → Session s
      → esprimi_voto input s ≡ some t
      → Session t
  rank :
      {s t : Server} {res : List Bytes} (stack : List ℤ)
      → Session s
      → classifica_giudici stack s ≡ some (res, t)
      → Session t

-- The registry with these votes, and `rest` behind its three rows.
abbrev pub registry : ℤ → ℤ → ℤ → List Registro → List Registro
registry v0 v1 v2 rest =
    record row_0 { voto = v0 } ∷ record row_1 { voto = v1 } ∷ record row_2 { voto = v2 } ∷ rest

abbrev pub no_rows : List Registro
no_rows = replicate 253 blank_row

pub record Started (s : Server) : Type 0 where
  pub done : s.done ≡ true
  pub v0 : ℤ
  pub v1 : ℤ
  pub v2 : ℤ
  pub reg_eq : s.reg ≡ registry v0 v1 v2 no_rows
  pub names : length s.res ≡ 256

pub inizializza_done : (s : Server) → s.done ≡ true → inizializza s ≡ some s
unfolding inizializza
inizializza_done s h = rw h

-- The server after its first initialisation.
abbrev pub loaded : Server
loaded = record {
  reg = registry (pos 0) (pos 0) (pos 0) no_rows;
  done = true;
  res = replicate 256 [];
}

pub inizializza-boot : inizializza boot ≡ some loaded
unfolding inizializza
inizializza-boot = refl

pub loaded-Started : Started loaded
loaded-Started = record {
  done = refl;
  v0 = pos 0;
  v1 = pos 0;
  v2 = pos 0;
  reg_eq = refl;
  names = length-replicate 256 (codes "");
}

inizializza-Started :
    (s : Server) {t : Server} → (s ≡ boot) ⊎ Started s → inizializza s ≡ some t → Started t
inizializza-Started s (inl e) h =
    subst Started (some_inj (sym inizializza-boot ∙ rw e at h)) loaded-Started
inizializza-Started s (inr st) h =
    subst Started (some_inj (sym (inizializza_done s st.done) ∙ h)) st

vote_rows-cons :
    (delta : ℤ) (c : Bytes) (r : Registro) (rows : List Registro) {out : List Registro}
    → str_eq r.candidato mark_l ≡ false
    → vote_rows delta c (r ∷ rows) ≡ some out
    → (w : ℤ) × (rest : List Registro) × (out ≡ record r { voto = w } ∷ rest)
      × (vote_rows delta c rows ≡ some rest)
unfolding vote_rows
vote_rows-cons delta c r rows used h =
    let (w, _, h1) =
      bind-eq-some (if str_eq r.candidato c then add_int r.voto delta else some r.voto) _
        (rw used at h) in
    let (rest, counted, h2) = bind-eq-some (vote_rows delta c rows) _ h1 in
    (w, rest, sym (some_inj h2), counted)

vote_rows-registry :
    (delta : ℤ) (c : Bytes) (v0 v1 v2 : ℤ) (rest : List Registro) {out : List Registro}
    → IsVacant rest
    → vote_rows delta c (registry v0 v1 v2 rest) ≡ some out
    → (w0 : ℤ) × (w1 : ℤ) × (w2 : ℤ) × (out ≡ registry w0 w1 w2 rest)
unfolding str_eq
vote_rows-registry delta c v0 v1 v2 rest v h =
    let (w0, out0, e0, h0) = vote_rows-cons delta c (record row_0 { voto = v0 }) _ refl h in
    let (w1, out1, e1, h1) = vote_rows-cons delta c (record row_1 { voto = v1 }) _ refl h0 in
    let (w2, out2, e2, h2) = vote_rows-cons delta c (record row_2 { voto = v2 }) _ refl h1 in
    let same : rest ≡ out2 = some_inj (sym (vote_rows_vacant delta c rest v) ∙ h2) in
    (w0, w1, w2, rw (e0, e1, e2, same))

length-fill_null : (gs xs : List Bytes) → length (fill_null gs xs) ≡ length xs
unfolding fill_null
length-fill_null [] xs = refl
length-fill_null (g ∷ gs) [] = refl
length-fill_null (g ∷ gs) (x ∷ xs) = ap suc (length-fill_null gs xs)

length-fill_giudici : (gs xs : List Bytes) → length (fill_giudici gs xs) ≡ length xs
unfolding fill_giudici
length-fill_giudici [] xs = refl
length-fill_giudici (g ∷ gs) [] = refl
length-fill_giudici (g ∷ gs) (x ∷ xs) = ground (arith, length-fill_giudici gs xs)

classifica_giudici-Started :
    (stack : List ℤ) (s : Server) {t : Server} {res : List Bytes}
    → (s ≡ boot) ⊎ Started s
    → classifica_giudici stack s ≡ some (res, t)
    → Started t
unfolding classifica_giudici
classifica_giudici-Started stack s st h =
    let (i, ready, h1) = bind-eq-some (inizializza s) _ h in
    let (c, collected, h2) = bind-eq-some (collect i.reg i.reg _) _ h1 in
    let (o, sorted, h3) = bind-eq-some (sort_outer _ 0 c) _ h2 in
    let w = inizializza-Started s st ready in
    subst Started (ap (λ p. p.1) (some_inj h3)) (record {
      done = w.done;
      v0 = w.v0;
      v1 = w.v1;
      v2 = w.v2;
      reg_eq = w.reg_eq;
      names =
          length-fill_giudici o.giudici _
          ∙ length-fill_null o.giudici _
          ∙ length-map _ i.res
          ∙ w.names;
    })

pub IsVacant-no_rows : IsVacant no_rows
unfolding str_eq
IsVacant-no_rows = refl

esprimi_voto-Started :
    (input : InputEsprimiVoto) (s : Server) {t : Server}
    → (s ≡ boot) ⊎ Started s
    → esprimi_voto input s ≡ some t
    → Started t
unfolding esprimi_voto
esprimi_voto-Started input s st h =
    let (i, ready, h1) = bind-eq-some (inizializza s) _ h in
    let (reg, counted, h2) = bind-eq-some (vote_rows _ input.candidato i.reg) _ h1 in
    let w = inizializza-Started s st ready in
    let (w0, w1, w2, e) =
      vote_rows-registry _ input.candidato w.v0 w.v1 w.v2 no_rows IsVacant-no_rows
        (rw w.reg_eq at counted) in
    subst Started (some_inj h2)
      (record { done = w.done; v0 = w0; v1 = w1; v2 = w2; reg_eq = e; names = w.names })

-- A session has not begun, or has the three rows of the registry in place.
Session-Started : {s : Server} → Session s → (s ≡ boot) ⊎ Started s
Session-Started start = inl refl
Session-Started (vote {s} input before h) =
    inr (esprimi_voto-Started input s (Session-Started before) h)
Session-Started (rank {s} stack before h) =
    inr (classifica_giudici-Started stack s (Session-Started before) h)

pub Started-IsReady :
    (s : Server) (st : Started s)
    → All (λ r. IsWithin max_voto r.voto) s.reg
    → IsReady s
        (record row_0 { voto = st.v0 } ∷ record row_1 { voto = st.v1 } ∷ [])
        (record row_2 { voto = st.v2 } ∷ [])
        no_rows
unfolding str_eq
Started-IsReady s st small =
    let within = subst (All (λ r. IsWithin max_voto r.voto)) st.reg_eq small in
    record {
      done = st.done;
      ranked = record {
        parts = st.reg_eq;
        rows_ok = (
          (
            record { in_use = refl; named = refl; fits = omega arith; small = within.0 },
            (record { in_use = refl; named = refl; fits = omega arith; small = within.1.0 }, tt),
          ),
          (record { in_use = refl; named = refl; fits = omega arith; small = within.1.1.0 }, tt),
        );
        own = (refl, (refl, tt));
        again = (refl, tt);
        rest_unused = refl;
        in_size = omega arith;
      };
      names = st.names;
    }

-- In every state after a first call, while no row has more than 2^22 votes either way, the ranking
-- lists the two judges of the registry by descending totals, each total the sum of its rows' votes,
-- with 254 free places behind them, and changes nothing but the output.
pub Session-ranking :
    (stack : List ℤ) (s : Server)
    → Session s
    → s.done ≡ true
    → length stack ≡ 256
    → All (λ r. IsWithin max_voto r.voto) s.reg
    → Ranks stack s
        ((codes "giudice1", total (codes "giudice1") s.reg)
          ∷ (codes "giudice2", total (codes "giudice2") s.reg)
          ∷ [])
        254
Session-ranking stack s session done len small = elim (Session-Started session) [
  | inl e ↦ absurd (false≢true (ap (λ q. q.done) (sym e) ∙ done))
  | inr st ↦ classifica_giudici-Ranks stack s _ _ no_rows len (Started-IsReady s st small)
]
