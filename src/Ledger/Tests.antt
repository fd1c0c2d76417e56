-- ===== src/Ledger/Tests.antt =====
-- A ledger with a concrete codec, and its theorems at concrete files.
use ah.Base.{
  ℕ, zero, suc, ◌+◌, ◌-◌, ◌*◌, ◌≡◌, refl, ap, List, [], ◌∷◌, ◌++◌, Option, none, some, Text, ◌==◌,
  if◌then◌else◌, count, arith,
}
use ah.Ledger.{
  ScheduleRunRecord, notified, Decoded, invalid, parsed, Codec, ok, add_record, same_run,
  read_lines, read_runs, written, append_ok, append_run, contents, entry_bytes, write_entry,
}
use ah.Ledger.Lines.{strip_cr, lines, lines_from, unterminated, last_byte}
use ah.Ledger.Append.{Codes, read_runs-append_run}
use ah.Ledger.Distinct.{IsLedger, read_runs-IsLedger}

-- The run of task `n` of schedule 1, fired at 10 times `n`.
abbrev job : ℕ → ScheduleRunRecord
job n = record {
  task_id = some n;
  schedule_id = 1;
  fired_at = n * 10;
  finished_at = n * 10 + 5;
  outcome = notified;
  error = none;
  result_summary = [];
  notification_count = 1;
}

-- A line with `n + 1` letters A is the run of task `n`, and one without is no record.
abbrev of_count : ℕ → Decoded
of_count n = if n == 0 then invalid else parsed (job (n - 1))

abbrev letter : ℕ → Text
letter zero = []
letter (suc n) = 65 ∷ letter n

abbrev task_letters : Option ℕ → Text
task_letters none = letter 1
task_letters (some n) = letter (n + 1)

abbrev unary : Codec
unary = record {
  decode = λ t. of_count (count (λ b. b == 65) t);
  encode = λ r. task_letters r.task_id;
}

count-strip_cr : (t : Text) → count (λ b. b == 65) (strip_cr t) ≡ count (λ b. b == 65) t
unfolding strip_cr
count-strip_cr [] = refl
count-strip_cr (b ∷ []) = ground arith
count-strip_cr (b ∷ c ∷ bs) = ground (arith, count-strip_cr (c ∷ bs))

unary-Codes : Codes unary (job 2)
unary-Codes = record {
  strip = λ t. ap of_count (count-strip_cr t);
  round = refl;
  flat = (refl, (refl, (refl, tt)));
}

-- The runs of the tasks 0 and 1, the first of them twice and the last line not ended.
abbrev file : Text
file = 65 ∷ 10 ∷ 65 ∷ 13 ∷ 10 ∷ 65 ∷ 65 ∷ []

file_runs : read_runs unary 1 (some file) ≡ ok (job 0 ∷ job 1 ∷ [])
unfolding read_runs read_lines add_record same_run lines lines_from strip_cr
file_runs = refl

appended_bytes :
    append_run unary written (some file) (job 2)
    ≡ (some (file ++ 10 ∷ 65 ∷ 65 ∷ 65 ∷ 10 ∷ []), append_ok)
unfolding append_run write_entry entry_bytes contents unterminated last_byte read_runs read_lines
    add_record same_run lines lines_from strip_cr
appended_bytes = refl

read_runs-append_run_example :
    ((append_run unary written (some file) (job 2)).1 ≡ append_ok)
    × (read_runs unary 1 (append_run unary written (some file) (job 2)).0
        ≡ ok (add_record (job 0 ∷ job 1 ∷ []) (job 2)))
read_runs-append_run_example =
    read_runs-append_run unary (job 2) unary-Codes (some file) (job 0 ∷ job 1 ∷ []) file_runs

read_runs-IsLedger_example : IsLedger 1 (job 0 ∷ job 1 ∷ [])
read_runs-IsLedger_example = read_runs-IsLedger unary 1 (some file) (job 0 ∷ job 1 ∷ []) file_runs

abbrev jobs : List ScheduleRunRecord
jobs = job 0 ∷ job 1 ∷ job 2 ∷ []
