-- ===== src/Retry.antt =====
-- How a task comes back from an execution error: the error arms of `llm_response_system` in
-- src/systems/transform/llm_response.rs, the deadline under the retry key of src/systems/demand.rs,
-- `retry_wakeup_system` of src/systems/ingress.rs, `signal_ingest_system` of
-- src/systems/transform/signal_ingest.rs and `retry_ready_system` of
-- src/systems/transform/task_lifecycle.rs. One task is followed; its table entries are options.
pub mod Flow
pub mod Laws
mod Tests
use ah.Chrono.{Chrono}
use ah.Base.{
  ℕ, ◌+◌, ◌-◌, ◌≡◌, Bool, true, false, ◌&&◌, ◌||◌, not, List, [], ◌∷◌, ◌++◌, Option, none, some,
  Text, ltb, leb, ◌==◌, if◌then◌else◌,
}
use ah.Errors
use ah.Errors.{ExecutionError, FailureReason}
use ah.Task.{
  Task, TaskStatus, WaitingReason, pending, ready, running, waiting, done, failed, agent, user,
  retry_backoff, approval, summarization, tool_execution, sub_task_batch, chat_agent, ask_user,
  background_jobs, mark_waiting, mark_failed, schedule_retry, mark_ready_for_retry, is_terminal,
}

-- `status == Waiting(RetryBackoff)`.
unfoldable pub is_backoff : TaskStatus → Bool
is_backoff (waiting retry_backoff) = true
is_backoff _ = false

unfoldable pub holds : Option ℕ → ℕ → Bool
holds none n = false
holds (some m) n = m == n

-- What the user is told; the formatted text is left to its arguments.
pub data Output : Type 0 where
  background_report_failed : Text → Output
  task_failed : FailureReason → Text → Output

-- The task, the `ToolCallingState` entity to despawn, and the message to the user.
pub record Handled : Type 0 where
  pub task : Task
  pub despawned : Option ℕ
  pub output : Option Output

-- The error arms. `calling` is what `find_calling_state` found, `reporting` that the turn only reports
-- background jobs, and `has_jobs` that the task still owns some.
unfoldable pub handle_error : Chrono → Task → ExecutionError → Option ℕ → Bool → Bool → ℕ → Handled
handle_error chrono t error calling reporting has_jobs now =
    if Errors.is_retryable error && ltb t.retry_count t.max_retries
    then record { task = schedule_retry chrono t error now; despawned = calling; output = none }
    else if reporting && has_jobs
    then record {
      task =
          mark_waiting (record t { last_error = some (Errors.message error) }) background_jobs now;
      despawned = calling;
      output = some (background_report_failed (Errors.message error));
    }
    else record {
      task = mark_failed t error now;
      despawned = calling;
      output = some (task_failed (Errors.to_failure_reason error) (Errors.message error));
    }

-- The error of a result: a task that is terminal drops it, and only its calling state goes.
unfoldable pub handle_failure :
    Chrono → Task → ExecutionError → Option ℕ → Bool → Bool → ℕ → Handled
handle_failure chrono t error calling reporting has_jobs now =
    if is_terminal t.status
    then record { task = t; despawned = calling; output = none }
    else handle_error chrono t error calling reporting has_jobs now

-- What `DemandSchedule` of src/systems/demand.rs holds under the task's retry key: the monotonic
-- deadline with the wall-clock instant that it stands for, and what the last `take_due` took.
pub record RetryDeadline : Type 0 where
  pub deadline : Option ℕ
  pub wall : Option ℕ
  pub due : Bool
  pub due_wall : Option ℕ

-- `Instant::checked_add`, where `latest` is the last instant that an Instant can hold.
unfoldable pub checked_add : ℕ → ℕ → ℕ → Option ℕ
checked_add latest origin delay =
    if leb (origin + delay) latest then some (origin + delay) else none

-- `origin` is the monotonic instant of the sample of the clock, or else the present one.
unfoldable pub project : ℕ → ℕ → ℕ → ℕ → RetryDeadline → RetryDeadline
project latest origin at clock d =
    if holds d.wall at then d else elim (checked_add latest origin (at - clock)) [
      | none ↦ d
      | some deadline ↦ record d { deadline = some deadline; wall = some at }
    ]

unfoldable pub clear : RetryDeadline → RetryDeadline
clear d = record d { deadline = none; wall = none }

unfoldable pub is_past : Option ℕ → ℕ → Bool
is_past none now = false
is_past (some deadline) now = leb deadline now

unfoldable pub take_due : ℕ → RetryDeadline → RetryDeadline
take_due now d =
    if is_past d.deadline now
    then record { deadline = none; wall = none; due = true; due_wall = d.wall }
    else record d { due = false; due_wall = none }

unfoldable pub expired_at : RetryDeadline → ℕ → ℕ → Bool
unfolding holds
expired_at d at now =
    if holds d.wall at then false else (d.due && holds d.due_wall at) || leb at now

-- A wake-up names the retry count and the instant for which it was sent.
pub record Wakeup : Type 0 where
  pub retry_count : ℕ
  pub retry_at : ℕ

unfoldable pub is_current : Task → Wakeup → Bool
unfolding is_backoff holds
is_current t w =
    is_backoff t.status && (t.retry_count == w.retry_count) && holds t.next_retry_at w.retry_at

-- `emitted.retain(…)`.
unfoldable pub retain_ticket : Task → Option Wakeup → Option Wakeup
unfolding is_current
retain_ticket t none = none
retain_ticket t (some w) = if is_current t w then some w else none

unfoldable pub same_ticket : Option Wakeup → ℕ → ℕ → Bool
same_ticket none count at = false
same_ticket (some w) count at = (w.retry_count == count) && (w.retry_at == at)

unfoldable pub due_now : Option RetryDeadline → ℕ → ℕ → Bool
unfolding expired_at
due_now none at now = leb at now
due_now (some d) at now = expired_at d at now

-- The loop body over a task in backoff: the ticket kept, and the wake-up sent.
unfoldable pub emit_at :
    Option RetryDeadline → Option Wakeup → ℕ → Option ℕ → ℕ → Option Wakeup × Option Wakeup
unfolding due_now same_ticket
emit_at schedule ticket count none now = (ticket, none)
emit_at schedule ticket count (some at) now =
    let w : Wakeup = record { retry_count = count; retry_at = at } in
    if due_now schedule at now
    then if same_ticket ticket count at then (some w, none) else (some w, some w)
    else (ticket, none)

unfoldable pub retry_wakeup :
    Option RetryDeadline → Option Wakeup → Task → ℕ → Option Wakeup × Option Wakeup
unfolding retain_ticket emit_at
retry_wakeup schedule emitted t now =
    let ticket = retain_ticket t emitted in
    if is_backoff t.status
    then emit_at schedule ticket t.retry_count t.next_retry_at now
    else (ticket, none)

-- An agent of the registry: its identifier and its profile's name.
pub record Agent : Type 0 where
  pub id : ℕ
  pub name : Text

unfoldable pub find_name : ℕ → List Agent → Option Text
find_name id [] = none
find_name id (a ∷ agents) = if a.id == id then some a.name else find_name id agents

unfoldable pub delegate_name : Option ℕ → List Agent → Option Text
unfolding find_name
delegate_name none agents = none
delegate_name (some id) agents = find_name id agents

-- `DispatchHint`: the preferred agent of a `PendingDispatch`, or the main agent.
unfoldable pub redispatch : Option Text → Task → Task × Option Text
redispatch (some name) t = (t, some name)
redispatch none t = (record t { delegate = none }, none)

-- `retry_ready_system` on one message: the task, and the hint of the dispatch that it is given.
unfoldable pub retry_ready : List Agent → Task → Wakeup → ℕ → Task × Option (Option Text)
unfolding is_backoff holds redispatch delegate_name
retry_ready agents t w now =
    if not (is_backoff t.status)
      || not (t.retry_count == w.retry_count)
      || not (holds t.next_retry_at w.retry_at)
      || ltb now w.retry_at
    then (t, none)
    else let (t', hint) =
        redispatch (delegate_name t.delegate agents) (mark_ready_for_retry t now) in
      (t', some hint)
