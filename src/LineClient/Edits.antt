-- ===== src/LineClient/Edits.antt =====
-- Edits of files: each names a file and the line that goes from it, as a user of esercitazione_3/es2/clientTCP.c does.
use lab_reti_di_calcolatori.Base.{
  ◌<◌, none, some, List, [], ◌∷◌, ◌≡◌, ◌∙◌, subst, arith, length, if◌then◌else◌, Bool-cases,
  Option-cases, inl, inr, All, some_inj,
}
use lab_reti_di_calcolatori.Base.Int.{ℤ, IsInt}
use lab_reti_di_calcolatori.Base.CString.{Bytes, str_eq, named, length-named}
use lab_reti_di_calcolatori.Lines.Connection.{Ask}
use lab_reti_di_calcolatori.Lines.Header.{IsAsk}
use lab_reti_di_calcolatori.LineClient.{Files}
use lab_reti_di_calcolatori.LineClient.Texts.{IsShort, without}

-- A file and the number of the line that goes.
abbrev pub Edit : Type 0
Edit = Bytes × ℤ

abbrev pub put : Bytes → Bytes → Files → Files
put f content files = λ g. if str_eq g f then some content else files g

-- The files behind the edits.
abbrev pub edited : List Edit → Files → Files
edited [] files = files
edited ((nome, riga) ∷ edits) files = elim (files nome) [
  | none ↦ edited edits files
  | some content ↦ edited edits (put nome (without riga content) files)
]

-- What the client asks the server for, where `array` is the content of `nomeFile`.
abbrev pub asks : Bytes → List Edit → Files → List Ask
asks array [] files = []
asks array ((nome, riga) ∷ edits) files =
    let nome_file = named nome array in
    elim (files nome) [
      | none ↦ asks nome_file edits files
      | some content ↦
          record { nome_file = nome_file; riga = riga; content = content }
          ∷ asks nome_file edits (put nome (without riga content) files)
    ]

-- What the user types, where `decimal` writes a number.
abbrev pub typed : (ℤ → Bytes) → List Edit → List Bytes
typed decimal [] = []
typed decimal ((nome, riga) ∷ edits) = nome ∷ decimal riga ∷ typed decimal edits

abbrev pub IsEdit : Edit → Type 0
IsEdit (nome, riga) = (length nome < 256) × IsInt riga

-- Every file has this property, which no deletion of a line takes from it.
abbrev pub AllFiles : (Bytes → Type 0) → Files → Type 0
AllFiles P files = (g content : Bytes) → files g ≡ some content → P content

abbrev pub Lasts : (Bytes → Type 0) → Type 0
Lasts P = (riga : ℤ) (content : Bytes) → P content → P (without riga content)

put-AllFiles :
    (P : Bytes → Type 0) (files : Files) (f content : Bytes)
    → P content
    → AllFiles P files
    → AllFiles P (put f content files)
put-AllFiles P files f content fine h g other e = elim (Bool-cases (str_eq g f)) [
  | inl same ↦ subst P (some_inj (rw same at e)) fine
  | inr differs ↦ h g other (rw differs at e)
]

-- A request as the client sends it, with a content of this property.
abbrev pub IsSound : (Bytes → Type 0) → Ask → Type 0
IsSound P q = (length q.nome_file ≡ 256) × IsInt q.riga × P q.content

pub asks-IsSound :
    (P : Bytes → Type 0)
    → Lasts P
    → (edits : List Edit) (array : Bytes) (files : Files) → length array ≡ 256
    → All IsEdit edits
    → AllFiles P files
    → All (IsSound P) (asks array edits files)
asks-IsSound P lasts [] array files room ok h = tt
asks-IsSound P lasts ((nome, riga) ∷ edits) array files room ((fits, int), ok) h =
    let room' : length (named nome array) ≡ 256 = length-named nome array (omega arith) ∙ room in
    elim (Option-cases (files nome)) [
      | inl missing ↦
          rw (missing, All) (asks-IsSound P lasts edits (named nome array) files room' ok h)
      | inr (content, found) ↦
          let fine = h nome content found in
          let left = without riga content in
          rw (found, All)
            (
              (room', int, fine),
              asks-IsSound P lasts edits (named nome array) (put nome left files) room' ok
                  (put-AllFiles P files nome left (lasts riga content fine) h),
            )
    ]

pub All-IsAsk : (qs : List Ask) → All (IsSound IsShort) qs → All IsAsk qs
All-IsAsk [] ok = tt
All-IsAsk (q ∷ qs) ((room, int, short), ok) = ((room, int, short.1, short.0), All-IsAsk qs ok)

pub asks_missing :
    (nome : Bytes) (riga : ℤ) (edits : List Edit) (array : Bytes) (files : Files)
    → files nome ≡ none
    → asks array ((nome, riga) ∷ edits) files ≡ asks (named nome array) edits files
asks_missing nome riga edits array files missing = rw (missing, asks)

pub asks_found :
    (nome : Bytes) (riga : ℤ) (edits : List Edit) (content array : Bytes) (files : Files)
    → files nome ≡ some content
    → asks array ((nome, riga) ∷ edits) files
      ≡ record { nome_file = named nome array; riga = riga; content = content }
        ∷ asks (named nome array) edits (put nome (without riga content) files)
asks_found nome riga edits content array files found = rw (found, asks)

pub edited_missing :
    (nome : Bytes) (riga : ℤ) (edits : List Edit) (files : Files)
    → files nome ≡ none
    → edited ((nome, riga) ∷ edits) files ≡ edited edits files
edited_missing nome riga edits files missing = rw (missing, edited)

pub edited_found :
    (nome : Bytes) (riga : ℤ) (edits : List Edit) (content : Bytes) (files : Files)
    → files nome ≡ some content
    → edited ((nome, riga) ∷ edits) files ≡ edited edits (put nome (without riga content) files)
edited_found nome riga edits content files found = rw (found, edited)
