-- ===== src/Upkeep.antt =====
-- The other systems of src/systems/schedule.rs: the start-up, the records of triggers that were not
-- run, the end of one-shot schedules, and the saving of the definitions. The ledger is the one of
-- Ledger, the decision on missed runs the one of Schedule. The application has a ScheduleStore; the
-- logs and the texts of the notices are left out.
mod Interruptions
mod Removal
mod Tests
use ah.Accounting.{is_some, find_definition}
use ah.Base.{
  ℕ, Bool, true, false, ◌&&◌, ◌||◌, not, List, [], ◌∷◌, ◌++◌, map, concat, Option, none, some, Text,
  ◌==◌, if◌then◌else◌, any, filter, text_eq,
}
use ah.Ledger.{Codec, Write, append_run, append_ok, append_err, ScheduleRunRecord, missed}
use ah.Schedule.{
  ScheduleDefinition, ScheduleSpec, once, cron, CatchUp, nothing_missed, fire, expired,
  catch_up_decision,
}

-- `ScheduleExpr::is_once`.
unfoldable pub is_once : ScheduleSpec → Bool
is_once (once at) = true
is_once (cron next) = false

-- A one-shot schedule that has fired and is still there: its run did not end.
unfoldable pub is_interrupted : ScheduleDefinition → Bool
is_interrupted def = def.enabled && is_once def.schedule && is_some def.health.last_fired_at

unfoldable pub has_id : List ℕ → ℕ → Bool
has_id ids id = any (λ i. i == id) ids

unfoldable pub pause : List ℕ → ScheduleDefinition → ScheduleDefinition
pause ids def = if has_id ids def.id then record def { enabled = false } else def

unfoldable pub interrupted : List ScheduleDefinition → List ScheduleDefinition
interrupted defs = filter is_interrupted defs

unfoldable pub pause_interrupted : List ScheduleDefinition → List ScheduleDefinition
pause_interrupted defs = map (pause (map (λ d. d.id) (interrupted defs))) defs

-- What the start-up spawns: a trigger that makes up for a run, or the record of a missed one.
pub data StartupAction : Type 0 where
  catch_up : ℕ → ℕ → StartupAction
  record_missed : ScheduleRunRecord → StartupAction

unfoldable pub missed_summary : Text
unfolding ah.Base.bytes
missed_summary = ah.Base.bytes "outside catch-up window"

unfoldable pub missed_record : ℕ → ℕ → ℕ → ScheduleRunRecord
missed_record id missed_at now = record {
  task_id = none;
  schedule_id = id;
  fired_at = missed_at;
  finished_at = now;
  outcome = missed;
  error = none;
  result_summary = missed_summary;
  notification_count = 0;
}

unfoldable pub action_of : ℕ → ℕ → CatchUp → List StartupAction
action_of id now nothing_missed = []
action_of id now (fire missed_at) = catch_up id missed_at ∷ []
action_of id now (expired missed_at) = record_missed (missed_record id missed_at now) ∷ []

-- The body of the loop.
unfoldable pub startup_actions : ℕ → ℕ → ScheduleDefinition → List StartupAction
startup_actions now window def =
    if not def.enabled || is_once def.schedule
    then []
    else action_of def.id now (catch_up_decision def now window)

-- The definitions, the schedules that are told to be interrupted, and the actions.
pub record Startup : Type 0 where
  pub definitions : List ScheduleDefinition
  pub told : List ScheduleDefinition
  pub actions : List StartupAction

-- `schedule_catch_up_startup_system`.
unfoldable pub start_up : ℕ → ℕ → List ScheduleDefinition → Startup
start_up now window defs =
    let paused = pause_interrupted defs in
    record {
      definitions = paused;
      told = interrupted defs;
      actions = concat (map (startup_actions now window) paused);
    }

-- `PendingScheduleRecord`.
pub record PendingScheduleRecord : Type 0 where
  pub entry : ScheduleRunRecord
  pub expired : Option ScheduleDefinition

-- The state of the first loop of `schedule_run_accounting_system` for one such record: whether it is
-- still pending, whether a failure of the ledger has been told, and whether the removal has been.
pub record Expiry : Type 0 where
  pub definitions : List ScheduleDefinition
  pub stored : List ScheduleDefinition
  pub ledger : Option Text
  pub pending : Bool
  pub storage_alerted : Bool
  pub told_removed : Bool

-- What a round finds: a retry that is not due, how the write ends, and whether the save does.
pub record ExpiryRound : Type 0 where
  pub blocked : Bool
  pub write : Write
  pub save_ok : Bool

-- The definition that expired, unless it was scheduled anew or is gone.
unfoldable pub still_expired :
    List ScheduleDefinition → Option ScheduleDefinition → Option ScheduleDefinition
still_expired defs none = none
still_expired defs (some def) =
    if any (λ d. d.id == def.id && text_eq d.raw def.raw) defs then some def else none

unfoldable pub without_id : ℕ → List ScheduleDefinition → List ScheduleDefinition
without_id id defs = filter (λ d. not (d.id == id)) defs

-- Behind the ledger: the definition is removed in the store, then in memory.
unfoldable pub remove_expired :
    PendingScheduleRecord → Option ScheduleDefinition → ExpiryRound → Expiry → Expiry
remove_expired p none r s = record s { pending = false; storage_alerted = false }
remove_expired p (some def) r s =
    if r.save_ok
    then record s {
      definitions = without_id def.id s.definitions;
      stored = without_id p.entry.schedule_id s.definitions;
      pending = false;
      storage_alerted = false;
      told_removed = true;
    }
    else s

unfoldable pub expire_round : Codec → PendingScheduleRecord → ExpiryRound → Expiry → Expiry
expire_round codec p r s =
    if not s.pending || r.blocked
    then s
    else (let (file, result) = append_run codec r.write s.ledger p.entry in
        elim result [
          | append_err e ↦ record s { ledger = file; storage_alerted = true }
          | append_ok ↦
              remove_expired p (still_expired s.definitions p.expired) r
                (record s { ledger = file })
        ])

unfoldable pub expire_rounds : Codec → PendingScheduleRecord → List ExpiryRound → Expiry → Expiry
expire_rounds codec p [] s = s
expire_rounds codec p (r ∷ rounds) s = expire_rounds codec p rounds (expire_round codec p r s)

-- `once_schedule_completion_system`: `runs` are the recorded runs, whether each has ended, and its
-- schedule.
unfoldable pub finished_once : List (Bool × ℕ) → List ScheduleDefinition → List ℕ
finished_once [] defs = []
finished_once ((ended, id) ∷ runs) defs =
    let rest = finished_once runs defs in
    if ended && any (λ d. d.id == id && is_once d.schedule) defs then id ∷ rest else rest

unfoldable pub complete_once : List (Bool × ℕ) → List ScheduleDefinition → List ScheduleDefinition
complete_once runs defs = filter (λ d. not (has_id (finished_once runs defs) d.id)) defs

-- `schedule_persist_system`: the store, and the mark to try again.
pub record Persist : Type 0 where
  pub stored : List ScheduleDefinition
  pub retry : Bool

unfoldable pub persist : Bool → Bool → Bool → List ScheduleDefinition → Persist → Persist
persist changed blocked save_ok defs s =
    if (not changed && not s.retry) || blocked
    then s
    else if save_ok
    then record { stored = defs; retry = false }
    else record s { retry = true }
