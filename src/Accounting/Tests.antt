-- ===== src/Accounting/Tests.antt =====
-- A scheduled run whose ledger write and whose save fail before they succeed.
use ah.Base.{
  ℕ, zero, suc, ◌-◌, ◌^◌, ◌+◌, ◌≡◌, refl, ap, Bool, true, false, List, [], ◌∷◌, none, some, Text,
  ◌==◌, count, arith, All, inl, inr, min, leb,
}
use ah.Accounting.Commit.{Progress, account_all-Progress, account_all-recorded}
use ah.Accounting.Health.{
  Settled, settle_runs, notices_of_runs, failures_behind, is_alert, is_recovered, bit,
  settle_runs-Reflects, notices_of_runs-balanced,
}
use ah.Accounting.Once.{IsWhole}
use ah.Accounting.{
  ScheduledRun, Attempt, Accounting, run_record, account, account_all, is_ready, ledger_failed,
  storage_restored, run_failed, alert,
}
use ah.Ledger.Append.{Codes}
use ah.Ledger.Lines.{strip_cr}
use ah.Ledger.{Codec, Write, written, rolled_back, parsed, ok, read_runs}
use ah.Schedule.{ScheduleDefinition, cron, reply}
use ah.Task.{Task, failed}
use ah.Errors.{FailureReason}

abbrev job_task : Task
job_task = record {
  id = 5;
  content = [];
  creator = 0;
  delegate = none;
  status = failed FailureReason.agent_error;
  pending_confirmation_id = none;
  input_summary = [];
  result_summary = [];
  priority = 0;
  created_at = 100;
  updated_at = 100;
  retry_count = 0;
  max_retries = 0;
  next_retry_at = none;
  last_error = none;
  multi_turn = false;
  parent_task_id = none;
  batch_id = none;
  origin_channel = none;
  routing_policy = record {
    output_channel = none;
    approval_channel = none;
    approval_context = none;
  };
}

abbrev job_run : ScheduledRun
job_run = record { schedule_id = 1; fired_at = some 90; notify = reply }

-- A round that finds everything delivered, at instant `now`.
abbrev round_at : ℕ → Write → Bool → Attempt
round_at now write save_ok = record {
  now = now;
  status_text = [];
  blocked = false;
  outputs = false;
  sends = false;
  pending_for = 0;
  delivery_error = none;
  execution_error = none;
  notified_for = 0;
  write = write;
  save_ok = save_ok;
}

-- The ledger write fails, then the save, then nothing.
abbrev failing : List Attempt
failing = round_at 200 rolled_back true ∷ round_at 210 written false ∷ []

abbrev daily : ScheduleDefinition
daily = record {
  id = 1;
  name = [];
  content = [];
  raw = [];
  schedule = cron (λ t. none);
  output_channel = none;
  notify = reply;
  report_of = none;
  enabled = true;
  created_at = 0;
  health = record {
    last_fired_at = none;
    last_success_at = none;
    consecutive_failures = 0;
    alerting = false;
  };
}

abbrev before : Accounting
before = record {
  definitions = daily ∷ [];
  stored = daily ∷ [];
  ledger = none;
  completed_at = none;
  storage_alerted = false;
  recorded = false;
  notices = [];
}

-- The record of the run that is finished at `n` is a line of `n` letters A.
abbrev letters : ℕ → Text
letters zero = []
letters (suc n) = 65 ∷ letters n

abbrev finish_codec : Codec
finish_codec = record {
  decode =
      λ t. parsed (run_record job_task job_run (count (λ b. b == 65) t) (round_at 0 written true));
  encode = λ r. letters r.finished_at;
}

count-strip_cr : (t : Text) → count (λ b. b == 65) (strip_cr t) ≡ count (λ b. b == 65) t
unfolding strip_cr
count-strip_cr [] = refl
count-strip_cr (b ∷ []) = ground arith
count-strip_cr (b ∷ c ∷ bs) = ground (arith, count-strip_cr (c ∷ bs))

count-letters : (n : ℕ) → count (λ b. b == 65) (letters n) ≡ n
count-letters zero = refl
count-letters (suc n) = ap suc (count-letters n)

letters-All : (n : ℕ) → All (λ b. (b == 10) ≡ false) (letters n)
letters-All zero = tt
letters-All (suc n) = (refl, letters-All n)

round-Codes :
    (now : ℕ) (write : Write) (save_ok : Bool) (n : ℕ)
    → Codes finish_codec (run_record job_task job_run n (round_at now write save_ok))
unfolding run_record ah.Accounting.run_outcome ah.Accounting.run_error ah.Accounting.has_failed
    ah.Accounting.is_done ah.Accounting.is_some ah.Accounting.unwrap_or ah.Accounting.or_option
    ah.Accounting.take_chars
round-Codes now write save_ok n = record {
  strip = λ t.
      ap (λ m. parsed (run_record job_task job_run m (round_at 0 written true))) (count-strip_cr t);
  round =
      ap (λ m. parsed (run_record job_task job_run m (round_at 0 written true))) (count-letters n);
  flat = letters-All n;
}

failing-IsWhole : All IsWhole failing
failing-IsWhole = (inr refl, (inl refl, tt))

failing-Codes : All (λ b. (n : ℕ) → Codes finish_codec (run_record job_task job_run n b)) failing
failing-Codes = (round-Codes 200 rolled_back true, (round-Codes 210 written false, tt))

empty_ledger : read_runs finish_codec job_run.schedule_id before.ledger ≡ ok []
unfolding read_runs
empty_ledger = refl

account_all-Progress_example :
    Progress finish_codec 3 job_task job_run failing [] before
      (account_all finish_codec 3 job_task job_run failing before)
account_all-Progress_example =
    account_all-Progress finish_codec 3 job_task job_run failing [] before failing-IsWhole
      failing-Codes refl empty_ledger

delivered : is_ready job_task (round_at 220 written true) ≡ true
unfolding is_ready ah.Task.is_terminal
delivered = refl

account_all-recorded_example :
    (account finish_codec 3 job_task job_run
      (round_at 220 written true)
      (account_all finish_codec 3 job_task job_run failing before)).recorded
    ≡ true
account_all-recorded_example =
    account_all-recorded finish_codec 3 job_task job_run failing [] before
      (round_at 220 written true) failing-IsWhole failing-Codes (round-Codes 220 written true) refl
      empty_ledger refl delivered refl refl

-- Three failures and a success.
abbrev failure : Settled
failure = record { run_has_failed = true; finished_at = 10; error = none }

abbrev success : Settled
success = record { run_has_failed = false; finished_at = 20; error = none }

abbrev bad_days : List Settled
bad_days = failure ∷ failure ∷ success ∷ failure ∷ failure ∷ failure ∷ []

settle_runs-Reflects_example :
    ((settle_runs 3 bad_days daily).health.consecutive_failures
      ≡ min (failures_behind 0 bad_days) (2 ^ 32 - 1))
    × ((settle_runs 3 bad_days daily).health.alerting ≡ leb 3 (failures_behind 0 bad_days))
settle_runs-Reflects_example =
    settle_runs-Reflects 3 bad_days daily (omega arith) (omega arith) refl refl

notices_of_runs-balanced_example :
    count is_alert (notices_of_runs 3 bad_days daily)
    ≡ count is_recovered (notices_of_runs 3 bad_days daily)
      + bit (settle_runs 3 bad_days daily).health.alerting
notices_of_runs-balanced_example = notices_of_runs-balanced 3 bad_days daily refl
