-- ===== src/Retention.antt =====
-- `terminal_task_retention_system` and `conversation_idle_system` of src/systems/task_retention.rs: when
-- the tasks of a tree are reclaimed, and when a conversation is finished because it is idle. What the
-- systems read of other components stands in a `World`, whose functions are the lookups of
-- MonitorDeliveries, InflightLlmRequests, ScheduleDeliveryTracker and the session backend; a component
-- that is not installed has nothing pending. Of a work item of src/domain/work_item.rs the model has
-- the task and the status. A panic is none.
mod Roots
mod Reclaim
mod Idle
mod Tests
use ah.Base.{
  ℕ, zero, suc, ◌+◌, ◌-◌, ◌*◌, ◌^◌, Bool, true, false, ◌&&◌, ◌||◌, not, List, [], ◌∷◌, ◌++◌, map,
  Option, none, some, ltb, leb, ◌==◌, if◌then◌else◌, any, filter,
}
use ah.Accounting.{is_some}
use ah.Task.{Task, TaskStatus, waiting, user, ask_user, is_terminal}

-- `WorkItemStatus`, and `WorkItem::is_terminal`.
pub data WorkItemStatus : Type 0 where
  pending assigned running completed failed : WorkItemStatus

unfoldable pub is_terminal_item : WorkItemStatus → Bool
is_terminal_item completed = true
is_terminal_item failed = true
is_terminal_item _ = false

pub record WorkItem : Type 0 where
  pub task_id : ℕ
  pub status : WorkItemStatus

unfoldable pub max_task_depth : ℕ
max_task_depth = 64

-- Thirty seconds in nanoseconds.
unfoldable pub sweep_interval : ℕ
sweep_interval = 30 * 1000000000

-- A signed number: of seconds, or of the nanoseconds of a chrono duration.
pub data Signed : Type 0 where
  forward : ℕ → Signed
  backward : ℕ → Signed

-- A u64 cast to i64.
unfoldable pub as_i64 : ℕ → Signed
as_i64 n = if ltb n (2 ^ 63) then forward n else backward (2 ^ 64 - n)

-- `now - updated_at < duration`, on signed durations.
unfoldable pub is_within : ℕ → ℕ → Signed → Bool
is_within now updated_at (forward n) = ltb now (updated_at + n)
is_within now updated_at (backward n) = ltb (now + n) updated_at

-- `parents.get(&id)`, the map being collected from the tasks, so that the last entry counts.
unfoldable pub parent_entry : List Task → ℕ → Option (Option ℕ)
parent_entry [] id = none
parent_entry (t ∷ tasks) id = elim (parent_entry tasks id) [
  | some p ↦ some p
  | none ↦ if t.id == id then some t.parent_task_id else none
]

-- `parents.get(&current).copied().flatten()`, if it is a task too.
unfoldable pub parent_task : List Task → ℕ → Option ℕ
parent_task tasks id = elim (parent_entry tasks id) [
  | none ↦ none
  | some parent ↦ elim parent [
    | none ↦ none
    | some p ↦ if is_some (parent_entry tasks p) then some p else none
  ]
]

-- The loop, with the steps that are left.
unfoldable pub climb : List Task → ℕ → ℕ → ℕ
climb tasks zero current = current
climb tasks (suc n) current = elim (parent_task tasks current) [
  | none ↦ current
  | some parent ↦ climb tasks n parent
]

unfoldable pub root_task_id : List Task → ℕ → ℕ
root_task_id tasks id = climb tasks max_task_depth id

-- What the sweeps read. `sessions` is none when the backend cannot say.
pub record World : Type 0 where
  pub now : ℕ
  pub work_items : List WorkItem
  pub tool_requests : List ℕ
  pub in_flight : ℕ → ℕ
  pub sessions : ℕ → Option ℕ
  pub unrecorded_runs : List ℕ
  pub pending_for : ℕ → ℕ
  pub has_pending_for_task : ℕ → Bool
  pub inbox_is_empty : ℕ → Bool
  pub has_jobs : ℕ → Bool
  pub queued_tools : List ℕ
  pub queued_llm : List ℕ
  pub deliveries : List ℕ

unfoldable pub contains_id : List ℕ → ℕ → Bool
contains_id ids id = any (λ i. i == id) ids

-- Sessions that are running, or that cannot be ruled out.
unfoldable pub may_run : Option ℕ → Bool
may_run none = true
may_run (some sessions) = ltb 0 sessions

-- Not terminal, or within the retention.
unfoldable pub is_kept : Signed → ℕ → Task → Bool
is_kept retention now t = not (is_terminal t.status) || is_within now t.updated_at retention

unfoldable pub ids_where : (Task → Bool) → List Task → List ℕ
ids_where p tasks = map (λ t. t.id) (filter p tasks)

unfoldable pub open_items : World → List ℕ
open_items w = map (λ i. i.task_id) (filter (λ i. not (is_terminal_item i.status)) w.work_items)

-- The tasks whose roots are busy, in the order in which the source collects them.
unfoldable pub busy_ids : Signed → World → List Task → List ℕ
busy_ids retention w tasks =
    ids_where (is_kept retention w.now) tasks
    ++ w.unrecorded_runs
    ++ ids_where (λ t. ltb 0 (w.pending_for t.id)) tasks
    ++ filter (λ id. is_some (parent_entry tasks id)) (open_items w)
    ++ w.tool_requests
    ++ ids_where (λ t. ltb 0 (w.in_flight t.id)) tasks
    ++ ids_where (λ t. may_run (w.sessions t.id)) tasks

unfoldable pub busy_roots : Signed → World → List Task → List ℕ
busy_roots retention w tasks = map (root_task_id tasks) (busy_ids retention w tasks)

unfoldable pub reclaim : Signed → World → List Task → List ℕ
reclaim retention w tasks =
    filter (λ id. not (contains_id (busy_roots retention w tasks) (root_task_id tasks id)))
      (map (λ t. t.id) tasks)

pub record Sweep : Type 0 where
  pub tasks : List Task
  pub dispatched : List ℕ
  pub last_sweep : Option ℕ

-- `now - last < SWEEP_INTERVAL`
unfoldable pub is_early : Option ℕ → ℕ → Bool
is_early none now = false
is_early (some last) now = ltb now (last + sweep_interval)

unfoldable pub remove_trees : Signed → World → Sweep → Sweep
remove_trees retention w s =
    let gone = reclaim retention w s.tasks in
    record {
      tasks = filter (λ t. not (contains_id gone t.id)) s.tasks;
      dispatched = filter (λ id. not (contains_id gone id)) s.dispatched;
      last_sweep = some w.now;
    }

-- `terminal_task_retention_system`. `seconds` is chrono's `Duration::seconds`; none is its panic on a
-- number of seconds that is out of range.
unfoldable pub sweep : (Signed → Option Signed) → ℕ → World → Sweep → Option Sweep
sweep seconds retention_secs w s =
    if is_early s.last_sweep w.now then some s else elim (seconds (as_i64 retention_secs)) [
      | none ↦ none
      | some retention ↦ some (remove_trees retention w s)
    ]

-- The tasks that keep a conversation from being idle.
unfoldable pub is_active : World → Task → Bool
is_active w t =
    (is_some t.parent_task_id && not (is_terminal t.status))
    || w.has_pending_for_task t.id
    || not (w.inbox_is_empty t.id)
    || w.has_jobs t.id
    || ltb 0 (w.in_flight t.id)

unfoldable pub active_ids : World → List Task → List ℕ
active_ids w tasks =
    ids_where (is_active w) tasks
    ++ w.tool_requests
    ++ w.queued_tools
    ++ w.queued_llm
    ++ w.deliveries
    ++ open_items w

unfoldable pub waits_for_user : TaskStatus → Bool
waits_for_user (waiting user) = true
waits_for_user (waiting ask_user) = true
waits_for_user _ = false

-- The filter on the tasks.
unfoldable pub is_idle : Signed → World → List Task → Task → Bool
is_idle idle w tasks t =
    not (is_some t.parent_task_id)
    && is_some t.origin_channel
    && not (is_some t.pending_confirmation_id)
    && waits_for_user t.status
    && not (is_within w.now t.updated_at idle)
    && not (contains_id (map (root_task_id tasks) (active_ids w tasks)) t.id)

-- A task of the tree has sessions, or may have.
unfoldable pub has_sessions : World → List Task → ℕ → Bool
has_sessions w tasks id =
    any (λ t. (root_task_id tasks t.id == id) && may_run (w.sessions t.id)) tasks

unfoldable pub idle_conversations : Signed → World → List Task → List ℕ
idle_conversations idle w tasks =
    ids_where (λ t. is_idle idle w tasks t && not (has_sessions w tasks t.id)) tasks

-- `conversation_idle_system`: the tasks that it finishes. An idle time of 0 turns it off.
unfoldable pub finish_idle :
    (Signed → Option Signed) → ℕ → World → Option ℕ → List Task → Option (List ℕ)
finish_idle seconds idle_secs w last_sweep tasks =
    if (idle_secs == 0) || is_early last_sweep w.now
    then some []
    else elim (seconds (as_i64 idle_secs)) [
      | none ↦ none
      | some idle ↦ some (idle_conversations idle w tasks)
    ]
