-- ===== src/Words/Tests.antt =====
-- Runs of the word service, and the theorems at concrete inputs.
use lab_reti_di_calcolatori.Base.{
  ℕ, ◌+◌, Bool, true, false, Option, some, none, List, [], ◌∷◌, ◌++◌, ◌≡◌, ◌<◌, ◌^◌, subst,
  some_inj, Bool-cases, refl, inl, inr, arith, length, replicate, All-replicate, if◌then◌else◌,
  ◌==◌,
}
use lab_reti_di_calcolatori.Base.Int.{ℤ, pos, negsuc}
use lab_reti_di_calcolatori.Base.CString.{Bytes, Without, codes, str_eq, read_string, strtok}
use lab_reti_di_calcolatori.Words.{
  request_length, System, Served, refused, scan_byte, scan_end, scan, delete_word, parse_request,
  serve, build_request,
}
use lab_reti_di_calcolatori.Words.Deletion.{delete_word_lem, delete_word-overlong}
use lab_reti_di_calcolatori.Words.Again.{delete_word_again}
use lab_reti_di_calcolatori.Words.Request.{
  IsField, parse_request-build_request, parse_request_unseparated,
}
use lab_reti_di_calcolatori.Words.Serving.{
  serve_request, Small, Answers, serve_answer, serve_refuses,
}

abbrev text : Bytes
text = codes "a cat, a dog a"

delete_a : delete_word (codes "a") text ≡ some (codes " cat,  dog ", 3)
unfolding lab_reti_di_calcolatori.Base.Int.count_up delete_word scan scan_byte scan_end str_eq
    read_string
delete_a = refl

delete_word_lem_example : delete_word (codes "a") text ≡ some (codes " cat,  dog ", 3)
unfolding str_eq
delete_word_lem_example =
    delete_word_lem (codes "a") text (ground arith) (omega arith) (omega arith)

delete_word_again_example :
    (out : Bytes) × (n : ℕ) × (delete_word (codes "a") text ≡ some (out, n))
    × (delete_word (codes "a") out ≡ some (out, 0))
unfolding str_eq
delete_word_again_example =
    delete_word_again (codes "a") text refl (ground arith) (omega arith) (omega arith)

-- 256 letters and no separator.
abbrev long_word : Bytes
long_word = replicate 256 b'x'

delete_word-overlong_example : delete_word (codes "a") long_word ≡ none
delete_word-overlong_example =
    delete_word-overlong (codes "a") long_word (All-replicate (λ c. (c == 0) ≡ false) 256 b'x' refl)
      refl (omega arith)

abbrev note : Bytes
note = codes "note.txt"

is_field : IsField note × IsField (codes "a")
is_field = (
  record {
    some_bytes = (ground arith);
    fits = omega arith;
    no_zero = ground arith;
    no_separator = ground arith;
  },
  record {
    some_bytes = (ground arith);
    fits = omega arith;
    no_zero = ground arith;
    no_separator = ground arith;
  },
)

parse_request-build_request_example :
    (r : Bytes) × (build_request note (codes "a") ≡ some r)
    × (length r ≡ request_length)
    × (parse_request r ≡ some (note, codes "a"))
parse_request-build_request_example =
    parse_request-build_request note (codes "a") is_field.0 is_field.1

parse_request_no_separator : parse_request note ≡ none
parse_request_no_separator =
    parse_request_unseparated note (ground arith) (ground arith) (omega arith)

-- A system with one file, the text above.
abbrev system : System
system = record {
  stat_dir = λ f. if str_eq f note then some false else none;
  open_file = λ f. if str_eq f note then some text else none;
  tmp_opens = true;
}

abbrev request : Bytes
request = codes "note.txt;a" ++ replicate 502 0

abbrev served : Served
served = record { stats_dir = false; renamed = some (note, codes " cat,  dog "); answer = pos 3 }

serve_request_example : serve system true request ≡ some served
unfolding str_eq build_request
serve_request_example =
    serve_request system true note (codes "a") text request is_field.0 is_field.1 refl refl refl
      refl (ground arith) (omega arith) (omega arith)

serve_runs : serve system true request ≡ some served
unfolding lab_reti_di_calcolatori.Base.Int.count_up serve parse_request delete_word scan scan_byte
    scan_end str_eq read_string strtok
serve_runs = refl

system-Small : Small system
system-Small f content h = elim (Bool-cases (str_eq f note)) [
  | inl same ↦
      let e = some_inj (rw same at h) in
      subst (λ b. Without 0 b × (length b + 1 < 2 ^ 31)) e (ground arith, omega arith)
  | inr other ↦ absurd (let e = rw other at h in cc)
]

serve_answer_example :
    (f : Bytes) × (p : Bytes) × (parse_request request ≡ some (f, p)) × Answers system f p served
serve_answer_example = serve_answer system true request system-Small serve_runs

serve_refuses_run : (dir : Bool) × (serve system false (codes "none;a") ≡ some (refused dir))
unfolding str_eq parse_request read_string strtok
serve_refuses_run =
    serve_refuses system false (codes "none") (codes "a") (codes "none;a") refl (inr (inl refl))
