-- ===== src/Ledger.antt =====
-- The ledger of the runs of a scheduled job, src/infrastructure/schedules/store.rs, over the records
-- of src/domain/schedule.rs. A ledger file is its bytes, `none` before it exists. The codec of the
-- crate `serde_json` and the outcome of a write are arguments; the other file operations are taken
-- to succeed.
pub mod Lines
pub mod Append
mod Distinct
mod Summary
mod Tests
use ah.Base.{
  ℕ, suc, ◌+◌, ◌%◌, ◌^◌, min, Bool, true, false, ◌&&◌, not, List, [], ◌∷◌, ◌++◌, map, Option, none,
  some, Text, leb, ◌==◌, if◌then◌else◌, any, filter, take,
}
use Lines.{lines, unterminated}

pub data RunOutcome : Type 0 where
  notified silent failed skipped_overlap missed : RunOutcome

pub record ScheduleRunRecord : Type 0 where
  pub task_id : Option ℕ
  pub schedule_id : ℕ
  pub fired_at : ℕ
  pub finished_at : ℕ
  pub outcome : RunOutcome
  pub error : Option Text
  pub result_summary : Text
  pub notification_count : ℕ

-- The derived equality of outcomes.
abbrev pub outcome_eq : RunOutcome → RunOutcome → Bool
outcome_eq notified notified = true
outcome_eq silent silent = true
outcome_eq failed failed = true
outcome_eq skipped_overlap skipped_overlap = true
outcome_eq missed missed = true
outcome_eq _ _ = false

abbrev same_trigger : Option ℕ → Option ℕ → Bool → Bool
same_trigger (some a) (some b) untasked = a == b
same_trigger none none untasked = untasked
same_trigger (some a) none untasked = false
same_trigger none (some b) untasked = false

-- `ScheduleStore::same_run`.
unfoldable pub same_run : ScheduleRunRecord → ScheduleRunRecord → Bool
same_run a b =
    same_trigger a.task_id b.task_id (a.fired_at == b.fired_at && outcome_eq a.outcome b.outcome)

-- A line that is no text, that is no record, or its record.
pub data Decoded : Type 0 where
  not_utf8 invalid : Decoded
  parsed : ScheduleRunRecord → Decoded

-- `from_str` on a line and `to_vec` on a record.
pub record Codec : Type 0 where
  pub decode : Text → Decoded
  pub encode : ScheduleRunRecord → Text

pub data ScheduleStoreError : Type 0 where
  io : ScheduleStoreError
  ledger_record mismatch : ℕ → ScheduleStoreError

pub data Runs : Type 0 where
  err : ScheduleStoreError → Runs
  ok : List ScheduleRunRecord → Runs

unfoldable pub add_record : List ScheduleRunRecord → ScheduleRunRecord → List ScheduleRunRecord
add_record records record' =
    if any (λ old. same_run old record') records then records else records ++ record' ∷ []

-- The loop of `read_runs`, `line` lines in.
unfoldable pub read_lines : ℕ → ℕ → List ScheduleRunRecord → List Decoded → Runs
read_lines id line records [] = ok records
read_lines id line records (not_utf8 ∷ more) = err io
read_lines id line records (invalid ∷ more) = err (ledger_record (line + 1))
read_lines id line records (parsed r ∷ more) =
    let rest = read_lines id (suc line) (add_record records r) more in
    if r.schedule_id == id then rest else err (mismatch (line + 1))

unfoldable pub read_runs : Codec → ℕ → Option Text → Runs
read_runs codec id none = ok []
read_runs codec id (some file) = read_lines id 0 [] (map codec.decode (lines file))

-- What a write comes to: all bytes, or some of them, with the tail cut off again or not.
pub data Write : Type 0 where
  written rolled_back : Write
  torn : Text → Write

pub data Appended : Type 0 where
  append_ok : Appended
  append_err : ScheduleStoreError → Appended

unfoldable pub contents : Option Text → Text
contents none = []
contents (some file) = file

-- The bytes that `append_run` adds behind the file.
unfoldable pub entry_bytes : Codec → Text → ScheduleRunRecord → Text
entry_bytes codec file r =
    let line = codec.encode r ++ 10 ∷ [] in if unterminated file then 10 ∷ line else line

unfoldable pub write_entry : Write → Text → Text → Option Text × Appended
write_entry written file entry = (some (file ++ entry), append_ok)
write_entry rolled_back file entry = (some file, append_err io)
write_entry (torn part) file entry = (some (file ++ part), append_err io)

-- `ScheduleStore::append_run`: the ledger afterwards, and the result.
unfoldable pub append_run : Codec → Write → Option Text → ScheduleRunRecord → Option Text × Appended
append_run codec write file r = elim (read_runs codec r.schedule_id file) [
  | err e ↦ (file, append_err e)
  | ok records ↦
      if any (λ old. same_run old r) records
      then (file, append_ok)
      else write_entry write (contents file) (entry_bytes codec (contents file) r)
]

-- `Vec::reverse`.
unfoldable pub reverse {ℓ} : {A : Type ℓ} → List A → List A
reverse [] = []
reverse (x ∷ xs) = reverse xs ++ x ∷ []

unfoldable pub recent : List ScheduleRunRecord → ℕ → List ScheduleRunRecord
recent records limit = take (min limit 100) (reverse records)

unfoldable pub recent_runs : Codec → ℕ → Option Text → ℕ → Runs
recent_runs codec id file limit = elim (read_runs codec id file) [
  | err e ↦ err e
  | ok records ↦ ok (recent records limit)
]

pub record RunSummary : Type 0 where
  pub total : ℕ
  pub notified : ℕ
  pub failed : ℕ
  pub skipped : ℕ
  pub missed : ℕ

-- `+= 1` on a u64.
unfoldable pub inc : ℕ → ℕ
inc n = (n + 1) % 2 ^ 64

-- The body of the loop of `run_summary`.
unfoldable pub tally : RunSummary → RunOutcome → RunSummary
tally s notified = record s { total = inc s.total; notified = inc s.notified }
tally s failed = record s { total = inc s.total; failed = inc s.failed }
tally s skipped_overlap = record s { total = inc s.total; skipped = inc s.skipped }
tally s missed = record s { total = inc s.total; missed = inc s.missed }
tally s silent = record s { total = inc s.total }

unfoldable pub tally_all : RunSummary → List ScheduleRunRecord → RunSummary
tally_all s [] = s
tally_all s (r ∷ records) = tally_all (tally s r.outcome) records

unfoldable pub summarise : ℕ → List ScheduleRunRecord → RunSummary
summarise since records =
    tally_all (record { total = 0; notified = 0; failed = 0; skipped = 0; missed = 0 })
      (filter (λ r. leb since r.fired_at) records)

-- `ScheduleStore::run_summary`, `none` on an error.
unfoldable pub run_summary : Codec → ℕ → Option Text → ℕ → Option RunSummary
run_summary codec id file since = elim (read_runs codec id file) [
  | err e ↦ none
  | ok records ↦ some (summarise since records)
]
