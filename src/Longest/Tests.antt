-- ===== src/Longest/Tests.antt =====
-- Runs of the longest-word service, and the theorems at concrete inputs.
use lab_reti_di_calcolatori.Base.{
  ℕ, ◌≤◌, ◌<◌, ltb, lt→ltb, ◌+◌, Option, some, none, List, [], ◌∷◌, ◌++◌, ◌≡◌, ◌⊎◌, refl, inl, inr,
  Bool-cases, some_inj, true, false, arith, All, replicate, if◌then◌else◌, length,
}
use lab_reti_di_calcolatori.Base.Int.{ℤ, pos, negsuc, ◌≤ℤ◌}
use lab_reti_di_calcolatori.Base.CString.{Bytes, codes, str_eq, read_string}
use lab_reti_di_calcolatori.Longest.{Server, serve, receive_name, read_words}
use lab_reti_di_calcolatori.Longest.Client.{ask_longest}
use lab_reti_di_calcolatori.Longest.Maxima.{maxima, Small, ask_longest-maxima}
use lab_reti_di_calcolatori.Datagram.Repeats.{repeated}
use lab_reti_di_calcolatori.Longest.Words.{
  ended, HasLength, serve_longest, serve_stale, serve_unterminated,
}

abbrev text : Bytes
text = codes "to be or\nnot to be forever"

abbrev open_file : Bytes → Option Bytes
open_file name = if str_eq name (codes "a.txt") then some text else none

-- A process that may have at most 9 files open.
abbrev few_files : ℕ → Bytes → Option Bytes
few_files d name = if ltb d 9 then open_file name else none

few_files_steady : (d : ℕ) (name : Bytes) → d < 9 → few_files d name ≡ open_file name
few_files_steady d name h = rw (lt→ltb d 9 h)

abbrev datagram : Bytes
datagram = codes "a.txt" ++ 0 ∷ []

abbrev fresh : Server
fresh = record { file_name = replicate 256 0; result = pos 0; descriptors = 0 }

abbrev answered : ℕ → Server
answered n = record { file_name = replicate 256 0; result = pos n; descriptors = 0 }

serve_runs :
    serve few_files datagram fresh
    ≡ some (record {
      file_name = receive_name datagram (replicate 256 0);
      result = pos 3;
      descriptors = 1;
    })
unfolding serve receive_name read_words lab_reti_di_calcolatori.Base.Int.count_up read_string str_eq
serve_runs = refl

serve_longest_example :
    (s' : Server) × (serve few_files datagram fresh ≡ some s')
    × (pos 0 ≤ℤ s'.result)
    × All (λ w. pos (length w) ≤ℤ s'.result) (ended text)
    × ((s'.result ≡ pos 0) ⊎ ((n : ℕ) × (s'.result ≡ pos n) × HasLength n (ended text)))
unfolding receive_name read_string str_eq
serve_longest_example =
    serve_longest few_files datagram (codes "a.txt") text fresh refl refl (omega arith)

serve_stale_run :
    serve few_files datagram (answered 9)
    ≡ some (record {
      file_name = receive_name datagram (replicate 256 0);
      result = pos 9;
      descriptors = 1;
    })
unfolding receive_name read_string str_eq
serve_stale_run =
    serve_stale few_files datagram (codes "a.txt") text (answered 9) 9 refl refl refl (omega arith)
      (omega arith, (omega arith, (omega arith, (omega arith, (omega arith, (omega arith, tt))))))

-- The files "ab " and "ab abcde" have the same answer.
serve_unterminated_run :
    serve (λ d name. some (codes "ab " ++ codes "abcde")) datagram fresh
    ≡ serve (λ d name. some (codes "ab ")) datagram fresh
unfolding receive_name read_string
serve_unterminated_run =
    serve_unterminated (codes "ab ") (codes "abcde") datagram (codes "a.txt") fresh refl
      (omega arith) (refl, (refl, (refl, (refl, (refl, tt)))))

small : Small open_file
small g content opened = elim (Bool-cases (str_eq g (codes "a.txt"))) [
  | inl same ↦ let found = rw same at opened in rw (← some_inj found) (omega arith)
  | inr other ↦ absurd (let missing = rw other at opened in cc)
]

-- The answer is that of a longer word of another file, and then -1, and then that of the file.
abbrev names : List Bytes
names = codes "a.txt" ∷ codes "b.txt" ∷ codes "a.txt" ∷ []

names_answered : maxima open_file names (pos 9) ≡ pos 9 ∷ negsuc 0 ∷ pos 3 ∷ []
unfolding str_eq
names_answered = refl

ask_longest-maxima_example :
    (t : Server) × (ask_longest few_files
        (λ k. repeated 1)
        0
        names
        (replicate 256 7)
        []
        (answered 9)
      ≡ some (record { shown = maxima open_file names (pos 9); blocked = false; server = t }))
ask_longest-maxima_example =
    ask_longest-maxima few_files open_file 9 few_files_steady small (λ k. 1) names 0
      (replicate 256 7) (pos 9) 0 (answered 9)
      (
        ((refl, (refl, (refl, (refl, (refl, tt))))), omega arith),
        (
          ((refl, (refl, (refl, (refl, (refl, tt))))), omega arith),
          (((refl, (refl, (refl, (refl, (refl, tt))))), omega arith), tt),
        ),
      )
      refl (omega arith) (refl, refl, omega arith)
