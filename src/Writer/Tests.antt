-- ===== src/Writer/Tests.antt =====
-- The writer after some rounds, and the theorem at a concrete input.
use lab_reti_di_calcolatori.Base.{ℕ, true, some, ◌++◌, ◌≡◌, ◌==◌, if◌then◌else◌}
use lab_reti_di_calcolatori.Base.CString.{codes}
use lab_reti_di_calcolatori.Writer.{within, string, scrittore}
use lab_reti_di_calcolatori.Writer.Endless.{scrittore_endless}

-- The second call writes two bytes.
abbrev takes : ℕ → ℕ
takes n = if n == 1 then 2 else 26

scrittore_endless_example :
    scrittore true takes 3 ≡ some (within 3 (string ++ (codes "ab" ++ string)))
scrittore_endless_example = scrittore_endless takes 3
