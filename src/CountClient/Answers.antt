-- ===== src/CountClient/Answers.antt =====
-- What the client of esercitazione7/client.c shows for a list of questions.
use lab_reti_di_calcolatori.Base.{
  ℕ, ◌+◌, ◌≤◌, ◌<◌, ◌^◌, Bool, not, Option, some, List, [], ◌∷◌, ◌++◌, ◌≡◌, length, if◌then◌else◌,
}
use lab_reti_di_calcolatori.Base.Int.{ℤ, IsInt}
use lab_reti_di_calcolatori.Base.CString.{Bytes}
use lab_reti_di_calcolatori.Counting.{System}
use lab_reti_di_calcolatori.CountClient.{Line, Scanf, Desk, array_size, show}
use lab_reti_di_calcolatori.CountClient.Calls.{
  arrives, got, spent, line_of_file, line_of_dir, IsOpen, IsListed,
}
use lab_reti_di_calcolatori.CountClient.Questions.{Question, of_file, of_dir, Reads}

-- A call takes at most `cost` descriptors.
module _ {File : Type 0} (open_file : ℕ → Bytes → Option Bytes) (files : Bytes → Option Bytes)
    (sys : System File) (net : ℕ → List Bool) (scan_d scan_i : Scanf) (decimal : ℤ → Bytes)
    (limit cost : ℕ) (free : IsOpen open_file files sys limit)
    (reads : Reads scan_d scan_i decimal) where
  abbrev pub line_of : Question → Line
  line_of (of_file nome) = line_of_file files nome
  line_of (of_dir dir) = line_of_dir sys dir

  abbrev pub IsQuestion : Question → Type 0
  IsQuestion (of_file nome) =
      (length nome < array_size)
      × ((content : Bytes) → files nome ≡ some content → length content < 2 ^ 31)
  IsQuestion (of_dir dir) =
      (length dir.filename < array_size) × IsInt dir.dimfile × IsListed sys cost dir

  -- The descriptors that the calls from number `n` on may take.
  abbrev pub spending : ℕ → List Question → ℕ
  spending n [] = 0
  spending n (q ∷ questions) = spent cost (net n) + spending (n + 1) questions

  -- The lines up to the first call without a result.
  abbrev pub told : ℕ → List Question → List Line
  told n [] = []
  told n (q ∷ questions) = if arrives (net n) then line_of q ∷ told (n + 1) questions else []

  -- The desk behind a call, where the server has `t` open descriptors.
  abbrev behind : Question → ℕ → Desk → Desk
  behind (of_file nome) t d =
      show (λ l. l) (got (arrives (net d.calls)) (line_of_file files nome))
        (record d { contafile_word = some nome; calls = d.calls + 1; descriptors = t })
  behind (of_dir dir) t d =
      show (λ l. l) (got (arrives (net d.calls)) (line_of_dir sys dir))
        (record d { filename = some dir.filename; calls = d.calls + 1; descriptors = t })

  -- The desk `e` behind a call of the desk `d`.
  abbrev Called : Question → Desk → Desk → Type 0
  Called q d e =
      let back = arrives (net d.calls) in
      (e.calls ≡ d.calls + 1)
      × (e.shown ≡ (if back then d.shown ++ line_of q ∷ [] else d.shown))
      × (e.failed ≡ not back)
      × (e.descriptors ≤ d.descriptors + spent cost (net d.calls))
