-- ===== src/Accounting.antt =====
-- `schedule_run_accounting_system` of src/systems/schedule.rs, for one scheduled run: the ledger of
-- Ledger, then the health of the definition of Schedule, then the notices. A round of the system is
-- `account`; what it finds around it is an `Attempt`: the clock, the messages still under way, the
-- tracker of the deliveries, and how the writes end. The store and the tracker are there, as the
-- application installs them.
mod Health
mod Once
mod Commit
mod Tests
use ah.Base.{
  ℕ, zero, suc, Bool, true, false, ◌&&◌, ◌||◌, not, List, [], ◌∷◌, ◌++◌, Option, none, some, Text,
  ltb, leb, ◌==◌, if◌then◌else◌,
}
use ah.Ledger.{
  Codec, Write, append_run, append_ok, append_err, ScheduleRunRecord, RunOutcome, notified, silent,
  failed,
}
use ah.Protocol.{saturating_add}
use ah.Schedule.{ScheduleDefinition, ScheduleHealth, NotifyPolicy}
use ah.Task.{Task, TaskStatus, done, is_terminal}

pub record ScheduledRun : Type 0 where
  pub schedule_id : ℕ
  pub fired_at : Option ℕ
  pub notify : NotifyPolicy

-- What a round finds; `status_text` is the debug form of the task's status.
pub record Attempt : Type 0 where
  pub now : ℕ
  pub status_text : Text
  pub blocked : Bool
  pub outputs : Bool
  pub sends : Bool
  pub pending_for : ℕ
  pub delivery_error : Option Text
  pub execution_error : Option Text
  pub notified_for : ℕ
  pub write : Write
  pub save_ok : Bool

-- The calls of `notify`, with the schedule they are about.
pub data Notice : Type 0 where
  ledger_failed health_failed storage_restored : ℕ → Notice
  run_failed : ℕ → Option Text → Notice
  alert : ℕ → ℕ → Notice
  recovered : ℕ → Notice

-- The definitions in memory and in the store, the ledger of the schedule, the entries of
-- `completed_at` and `storage_alerted` for the run, the marker `ScheduleRunRecorded`, and the notices
-- so far.
pub record Accounting : Type 0 where
  pub definitions : List ScheduleDefinition
  pub stored : List ScheduleDefinition
  pub ledger : Option Text
  pub completed_at : Option ℕ
  pub storage_alerted : Bool
  pub recorded : Bool
  pub notices : List Notice

unfoldable pub is_done : TaskStatus → Bool
is_done done = true
is_done _ = false

unfoldable pub is_some {ℓ} : {A : Type ℓ} → Option A → Bool
is_some none = false
is_some (some x) = true

unfoldable pub unwrap_or {ℓ} : {A : Type ℓ} → Option A → A → A
unwrap_or none x = x
unwrap_or (some y) x = y

unfoldable pub or_option {ℓ} : {A : Type ℓ} → Option A → Option A → Option A
or_option none other = other
or_option (some x) other = some x

-- Everything the run says has been delivered.
unfoldable pub is_ready : Task → Attempt → Bool
is_ready task a =
    is_terminal task.status && not a.outputs && not a.sends && not (ltb 0 a.pending_for)

unfoldable pub has_failed : Task → Attempt → Bool
has_failed task a =
    not (is_done task.status) || is_some a.delivery_error || is_some a.execution_error

unfoldable pub run_error : Task → Attempt → Option Text
run_error task a =
    if has_failed task a
    then some (
        unwrap_or (or_option (or_option a.delivery_error a.execution_error) task.last_error)
          a.status_text)
    else none

unfoldable pub run_outcome : Task → Attempt → RunOutcome
run_outcome task a =
    if has_failed task a then failed else if ltb 0 a.notified_for then notified else silent

-- `chars().take(n)` on UTF-8 bytes: up to the byte that starts the character behind.
unfoldable pub take_chars : ℕ → Text → Text
take_chars n [] = []
take_chars n (b ∷ t) =
    let is_start = ltb b 0x80 || leb 0xC0 b in
    elim n [
      | zero ↦ if is_start then [] else b ∷ take_chars 0 t
      | suc m ↦ b ∷ take_chars (if is_start then m else suc m) t
    ]

unfoldable pub run_record : Task → ScheduledRun → ℕ → Attempt → ScheduleRunRecord
run_record task run finished_at a = record {
  task_id = some task.id;
  schedule_id = run.schedule_id;
  fired_at = unwrap_or run.fired_at task.created_at;
  finished_at = finished_at;
  outcome = run_outcome task a;
  error = run_error task a;
  result_summary = take_chars 2048 task.result_summary;
  notification_count = a.notified_for;
}

unfoldable pub find_definition : ℕ → List ScheduleDefinition → Option ScheduleDefinition
find_definition id [] = none
find_definition id (def ∷ defs) =
    let rest = find_definition id defs in if def.id == id then some def else rest

unfoldable pub replace_definition :
    ℕ → ScheduleDefinition → List ScheduleDefinition → List ScheduleDefinition
replace_definition id new [] = []
replace_definition id new (def ∷ defs) =
    let rest = replace_definition id new defs in if def.id == id then new ∷ defs else def ∷ rest

-- The health after a run.
unfoldable pub settle_health : ℕ → Bool → ℕ → ScheduleHealth → ScheduleHealth
settle_health threshold run_has_failed finished_at h =
    if run_has_failed
    then (let failures = saturating_add h.consecutive_failures 1 in
        record h {
          consecutive_failures = failures;
          alerting = h.alerting || leb threshold failures;
        })
    else record h { last_success_at = some finished_at; consecutive_failures = 0; alerting = false }

unfoldable pub settle_definition : ℕ → Bool → ℕ → ScheduleDefinition → ScheduleDefinition
settle_definition threshold run_has_failed finished_at def = record def {
  health = settle_health threshold run_has_failed finished_at def.health;
}

unfoldable pub when : Bool → Notice → List Notice
when b n = if b then n ∷ [] else []

-- The notices of a recorded run, from the health before and the definition after.
unfoldable pub outcome_notices : Bool → Option Text → Bool → ScheduleDefinition → List Notice
outcome_notices run_has_failed error was_alerting def =
    when run_has_failed (run_failed def.id error)
    ++ when (not was_alerting && def.health.alerting) (alert def.id def.health.consecutive_failures)
    ++ when (was_alerting && not def.health.alerting) (recovered def.id)

-- A failure of the store is told once, until the run is recorded.
unfoldable pub alert_storage : Option ScheduleDefinition → Notice → Accounting → Accounting
alert_storage def notice s = record s {
  storage_alerted = true;
  notices = s.notices ++ when (not s.storage_alerted && is_some def) notice;
}

-- The run is recorded.
unfoldable pub finish_run : List Notice → List Notice → Accounting → Accounting
finish_run restored outcome s = record s {
  storage_alerted = false;
  completed_at = none;
  recorded = true;
  notices = s.notices ++ (if s.storage_alerted then restored else []) ++ outcome;
}

-- Behind the ledger: the health of the definition, if there is one, saved before it is published.
unfoldable pub commit_health : ℕ → Task → ScheduledRun → ℕ → Attempt → Accounting → Accounting
commit_health threshold task run finished_at a s =
    elim (find_definition run.schedule_id s.definitions) [
      | none ↦ finish_run [] [] s
      | some def ↦
          let next = settle_definition threshold (has_failed task a) finished_at def in
          let defs = replace_definition run.schedule_id next s.definitions in
          if a.save_ok
          then finish_run (storage_restored def.id ∷ [])
              (outcome_notices (has_failed task a) (run_error task a) def.health.alerting next)
              (record s { definitions = defs; stored = defs })
          else alert_storage (some def) (health_failed def.id) s
    ]

unfoldable pub commit_ledger :
    Codec → ℕ → Task → ScheduledRun → ℕ → Attempt → Accounting → Accounting
commit_ledger codec threshold task run finished_at a s =
    let (file, result) = append_run codec a.write s.ledger (run_record task run finished_at a) in
    let next = record s { ledger = file; completed_at = some finished_at } in
    elim result [
      | append_err e ↦
          alert_storage (find_definition run.schedule_id s.definitions)
            (ledger_failed run.schedule_id) next
      | append_ok ↦ commit_health threshold task run finished_at a next
    ]

-- A round of the system for the run.
unfoldable pub account : Codec → ℕ → Task → ScheduledRun → Attempt → Accounting → Accounting
account codec threshold task run a s =
    if s.recorded || a.blocked || not (is_ready task a)
    then s
    else commit_ledger codec threshold task run (unwrap_or s.completed_at a.now) a s

unfoldable pub account_all :
    Codec → ℕ → Task → ScheduledRun → List Attempt → Accounting → Accounting
account_all codec threshold task run [] s = s
account_all codec threshold task run (a ∷ attempts) s =
    account_all codec threshold task run attempts (account codec threshold task run a s)
