-- ===== src/WordsClient/Store.antt =====
-- The word deletion service by the files that it keeps: what a request does to a store of files.
use mathlib.Core.Bool.{false≢true}
use lab_reti_di_calcolatori.Base.{
  Bool, true, false, Option, none, some, ◌≡◌, sym, ap, subst, ◌∙◌, if◌then◌else◌, Bool-cases,
  Option-cases, inl, inr, some_inj,
}
use lab_reti_di_calcolatori.Base.Int.{ℤ, pos, negsuc}
use lab_reti_di_calcolatori.Base.CString.{Bytes, codes, str_eq, str_eq_iff}
use lab_reti_di_calcolatori.Words.{System, build_request, parse_request, serve}
use lab_reti_di_calcolatori.Words.Tokens.{tokens, occurrences}
use lab_reti_di_calcolatori.Words.Again.{IsText, deleted, deleted-IsText}
use lab_reti_di_calcolatori.Words.Request.{IsField, parse_request-build_request}
use lab_reti_di_calcolatori.Words.Serving.{serve_request, serve_refuses}
use lab_reti_di_calcolatori.WordsClient.{World, answer_datagram}

-- The files by their paths.
abbrev pub Store : Type 0
Store = Bytes → Option Bytes

abbrev pub put : Bytes → Bytes → Store → Store
put f content store = λ g. if str_eq g f then some content else store g

-- What one request does where `is_dir` tells the directories and `renames` the paths to which `rename`
-- succeeds: the file is replaced only then, and the answer is the count in either case.
abbrev pub delete_from : (Bytes → Bool) → (Bytes → Bool) → Bytes → Bytes → Store → ℤ × Store
delete_from is_dir renames f p store =
    let file : ℤ × Store = elim (store f) [
      | none ↦ (negsuc 0, store)
      | some content ↦ (
        pos (occurrences p (tokens content)),
        if renames f then put f (deleted p content) store else store,
      )
    ] in
    if is_dir f then (negsuc 0, store) else file

-- The name of the server's temporary file.
abbrev pub IsOther : Bytes → Type 0
IsOther g = str_eq g (codes "tmp.txt") ≡ false

-- The system holds the files of the store: every path but that of the temporary file is a directory, a file that
-- the server can go through, or cannot be opened.
pub record Stores (is_dir : Bytes → Bool) (store : Store) (sys : System) : Type 0 where
  pub opens : (g : Bytes) → IsOther g → sys.open_file g ≡ store g
  pub folder : (g : Bytes) → IsOther g → is_dir g ≡ true → sys.stat_dir g ≡ some true
  pub file :
      (g content : Bytes)
      → IsOther g
      → is_dir g ≡ false
      → store g ≡ some content
      → (sys.stat_dir g ≡ some false) × IsText content
  pub tmp : sys.tmp_opens ≡ true

-- `rename("tmp.txt", f)`, where "tmp.txt" has this content: if it succeeds, the path `f` is then a
-- file with it; if not, nothing has changed. `renames` tells the paths for which it succeeds.
pub record IsRename (rename : Bytes × Bytes → System → Option System) (renames : Bytes → Bool)
    : Type 0 where
  pub fails :
      (f content : Bytes) (sys : System) → renames f ≡ false → rename (f, content) sys ≡ none
  pub after : Bytes → Bytes → System → System
  pub succeeds :
      (f content : Bytes) (sys : System)
      → renames f ≡ true
      → rename (f, content) sys ≡ some (after f content sys)
  pub opened :
      (f content g : Bytes) (sys : System)
      → IsOther g
      → (after f content sys).open_file g ≡ (if str_eq g f then some content else sys.open_file g)
  pub stats :
      (f content g : Bytes) (sys : System)
      → IsOther g
      → (after f content sys).stat_dir g ≡ (if str_eq g f then some false else sys.stat_dir g)
  pub tmp_free :
      (f content : Bytes) (sys : System) → (after f content sys).tmp_opens ≡ sys.tmp_opens

module _ (rename : Bytes × Bytes → System → Option System) (renames is_dir : Bytes → Bool)
    (laws : IsRename rename renames) where
  rename-Stores :
      (store : Store) (sys : System) (f content : Bytes)
      → is_dir f ≡ false
      → IsText content
      → Stores is_dir store sys
      → Stores is_dir (put f content store) (laws.after f content sys)
  rename-Stores store sys f content plain text h = record {
    opens = λ g o.
        laws.opened f content g sys o
        ∙ ap (λ c. if str_eq g f then some content else c) (h.opens g o);
    folder = λ g o d. elim (Bool-cases (str_eq g f)) [
      | inl same ↦ absurd (false≢true (sym plain ∙ ap is_dir (sym ((str_eq_iff g f).0 same)) ∙ d))
      | inr other ↦ laws.stats f content g sys o ∙ rw other (h.folder g o d)
    ];
    file = λ g c o d e. elim (Bool-cases (str_eq g f)) [
      | inl same ↦
          (laws.stats f content g sys o ∙ rw same, subst IsText (some_inj (rw same at e)) text)
      | inr other ↦
          let (plain_file, fine) = h.file g c o d (rw other at e) in
          (laws.stats f content g sys o ∙ rw other plain_file, fine)
    ];
    tmp = laws.tmp_free f content sys ∙ h.tmp;
  }

  answer_renamed :
      (w : World) (r f out : Bytes) (n : ℤ)
      → serve w.sys w.stats_dir r
        ≡ some (record { stats_dir = false; renamed = some (f, out); answer = n })
      → (sys : System) → rename (f, out) w.sys ≡ some sys
      → answer_datagram rename r w ≡ some (n, record { sys = sys; stats_dir = false })
  unfolding answer_datagram
  answer_renamed w r f out n served sys renamed = rw (served, renamed)

  answer_kept :
      (w : World) (r f out : Bytes) (n : ℤ)
      → serve w.sys w.stats_dir r
        ≡ some (record { stats_dir = false; renamed = some (f, out); answer = n })
      → rename (f, out) w.sys ≡ none
      → answer_datagram rename r w ≡ some (n, record { sys = w.sys; stats_dir = false })
  unfolding answer_datagram
  answer_kept w r f out n served kept = rw (served, kept)

  -- The server does what the store does.
  pub answer_datagram-delete_from :
      (store : Store) (w : World) (f p r : Bytes)
      → IsField f
      → IsField p
      → IsOther f
      → build_request f p ≡ some r
      → Stores is_dir store w.sys
      → let (answer, after) = delete_from is_dir renames f p store in
        (t : World) × (answer_datagram rename r w ≡ some (answer, t)) × Stores is_dir after t.sys
  unfolding answer_datagram
  answer_datagram-delete_from store w f p r hf hp other built h =
      let (r', built', _, parsed') = parse_request-build_request f p hf hp in
      let parsed : parse_request r ≡ some (f, p) = rw (some_inj (sym built ∙ built')) parsed' in
      elim (Bool-cases (is_dir f)) [
        | inl folder ↦
            let (bit, refuses) =
              serve_refuses w.sys w.stats_dir f p r parsed (inl (h.folder f other folder)) in
            (record w { stats_dir = bit }, rw (refuses, folder), rw folder h)
        | inr plain ↦ elim (Option-cases (store f)) [
          | inl missing ↦
              let (bit, refuses) =
                serve_refuses w.sys w.stats_dir f p r parsed
                  (inr (inl (h.opens f other ∙ missing))) in
              (record w { stats_dir = bit }, rw (refuses, plain, missing), rw (plain, missing) h)
          | inr (content, found) ↦
              let (stats, text) = h.file f content other plain found in
              let (z, fits, n) = text in
              let served =
                serve_request w.sys w.stats_dir f p content r hf hp built stats
                  (h.opens f other ∙ found) h.tmp z fits n in
              elim (Bool-cases (renames f)) [
                | inl renamed ↦ (
                  record { sys = laws.after f (deleted p content) w.sys; stats_dir = false },
                  rw (plain, found)
                      (answer_renamed w r f (deleted p content) _ served _
                        (laws.succeeds f (deleted p content) w.sys renamed)),
                  rw (plain, found, renamed)
                      (rename-Stores store w.sys f (deleted p content) plain
                        (deleted-IsText p content text) h),
                )
                | inr kept ↦ (
                  record { sys = w.sys; stats_dir = false },
                  rw (plain, found)
                      (answer_kept w r f (deleted p content) _ served
                        (laws.fails f (deleted p content) w.sys kept)),
                  rw (plain, found, kept) h,
                )
              ]
        ]
      ]
