-- ===== src/Retention/Tests.antt =====
-- A tree of three tasks, and a conversation.
use ah.Base.{
  ℕ, ◌≡◌, ◌↔◌, refl, true, false, List, [], ◌∷◌, map, Option, none, some, All, ◌*◌, ◌^◌, ◌-◌, leb,
  if◌then◌else◌,
}
use ah.Retention.Idle.{IsInactive, queued, finish_idle-IsInactive}
use ah.Retention.Reclaim.{IsQuiet, tree, work_under_way, reclaim-IsQuiet}
use ah.Retention.Roots.{
  is_task, LastTask, last_here, last_later, Parent, child_of, IsRoot, parent_gone, here,
  root_task_id-IsTop,
}
use ah.Retention.{
  Signed, forward, backward, as_i64, World, WorkItem, running, parent_entry, parent_task,
  root_task_id, contains_id, reclaim, finish_idle,
}
use ah.Task.{Task, TaskStatus, ChannelId, tui, done, waiting, user}

abbrev channel : ChannelId
channel = record { frontend = tui; user_id = []; thread_id = none }

abbrev task_of : ℕ → TaskStatus → Option ℕ → Task
task_of id status parent = record {
  id = id;
  content = [];
  creator = 0;
  delegate = none;
  status = status;
  pending_confirmation_id = none;
  input_summary = [];
  result_summary = [];
  priority = 0;
  created_at = 0;
  updated_at = 100;
  retry_count = 0;
  max_retries = 0;
  next_retry_at = none;
  last_error = none;
  multi_turn = true;
  parent_task_id = parent;
  batch_id = none;
  origin_channel = some channel;
  routing_policy = record {
    output_channel = none;
    approval_channel = none;
    approval_context = none;
  };
}

abbrev family : List Task
family = task_of 1 done none ∷ task_of 2 done (some 1) ∷ task_of 3 (waiting user) none ∷ []

abbrev quiet_world : List WorkItem → World
quiet_world items = record {
  now = 1000;
  work_items = items;
  tool_requests = [];
  in_flight = λ id. 0;
  sessions = λ id. some 0;
  unrecorded_runs = [];
  pending_for = λ id. 0;
  has_pending_for_task = λ id. false;
  inbox_is_empty = λ id. true;
  has_jobs = λ id. false;
  queued_tools = [];
  queued_llm = [];
  deliveries = [];
}

-- chrono's range of seconds, and its nanoseconds.
abbrev seconds : Signed → Option Signed
seconds (forward n) = if leb n 9223372036854775 then some (forward (n * 1000000000)) else none
seconds (backward n) = if leb n 9223372036854775 then some (backward (n * 1000000000)) else none

-- A retention of u64::MAX seconds is one of -1 second.
as_i64_test : as_i64 (2 ^ 64 - 1) ≡ backward 1
unfolding as_i64
as_i64_test = refl

abbrev reclaimed : World → List ℕ
unfolding reclaim ah.Retention.busy_roots ah.Retention.busy_ids ah.Retention.ids_where
    ah.Retention.is_kept ah.Retention.is_within ah.Retention.open_items ah.Retention.may_run
    ah.Retention.contains_id root_task_id ah.Retention.climb ah.Retention.max_task_depth parent_task
    parent_entry ah.Retention.is_terminal_item ah.Accounting.is_some ah.Task.is_terminal
reclaimed w = reclaim (forward 500) w family

test_reclaim : reclaimed (quiet_world []) ≡ 1 ∷ 2 ∷ []
unfolding reclaimed
test_reclaim = refl

-- An open work item of the child keeps the parent.
test_open_item : reclaimed (quiet_world (record { task_id = 2; status = running } ∷ [])) ≡ []
unfolding reclaimed
test_open_item = refl

-- A thousand seconds after the start.
abbrev late_world : List WorkItem → World
late_world items = record (quiet_world items) { now = 1000000000000 }

abbrev finished : ℕ → Option (List ℕ)
unfolding finish_idle ah.Retention.idle_conversations as_i64 ah.Retention.is_within
    ah.Retention.is_early ah.Retention.ids_where ah.Retention.is_idle ah.Retention.has_sessions
    ah.Retention.active_ids ah.Retention.is_active ah.Retention.waits_for_user
    ah.Retention.open_items ah.Retention.may_run ah.Retention.contains_id root_task_id
    ah.Retention.climb ah.Retention.max_task_depth parent_task parent_entry ah.Accounting.is_some
    ah.Task.is_terminal
finished idle_secs = finish_idle seconds idle_secs (late_world []) none family

test_idle : finished 500 ≡ some (3 ∷ [])
unfolding finished
test_idle = refl

test_not_idle : finished 5000 ≡ some []
unfolding finished
test_not_idle = refl

-- The child says that 1 is its parent, whose own parent 9 is gone.
abbrev orphans : List Task
orphans = task_of 1 done (some 9) ∷ task_of 2 done (some 1) ∷ []

first-LastTask : LastTask orphans 1 (task_of 1 done (some 9))
unfolding is_task
first-LastTask = last_here refl refl

first-IsRoot : IsRoot orphans 1
unfolding is_task
first-IsRoot = parent_gone (task_of 1 done (some 9)) 9 first-LastTask refl refl

second-Parent : Parent orphans 2 1
unfolding is_task
second-Parent = child_of (task_of 2 done (some 1)) (last_later (last_here refl refl)) refl refl

root_task_id-IsTop_example :
    (root_task_id orphans 1 ≡ 1)
    × (root_task_id orphans 2 ≡ 1)
    × (is_task orphans (root_task_id orphans 2) ≡ true)
unfolding is_task
root_task_id-IsTop_example =
    root_task_id-IsTop orphans 2 1 1 2 second-Parent (here first-IsRoot) refl

reclaim-IsQuiet_example : (contains_id (reclaim (forward 500) (quiet_world []) family) 2 ≡ true) ↔ (
    (contains_id (map (λ t. t.id) family) 2 ≡ true)
    × All (IsQuiet (forward 500) (quiet_world [])) (tree family 2)
    × (contains_id
          (map (root_task_id family) (work_under_way (quiet_world []) family))
          (root_task_id family 2)
        ≡ false))
reclaim-IsQuiet_example = reclaim-IsQuiet (forward 500) (quiet_world []) family 2

is_finished : finish_idle seconds 500 (late_world []) none family ≡ some (3 ∷ [])
unfolding finished
is_finished = refl

-- An idle time that is out of chrono's range panics.
out_of_range : finish_idle seconds (2 ^ 62) (late_world []) none family ≡ none
unfolding finish_idle ah.Retention.is_early as_i64
out_of_range = refl

is_root : root_task_id family 3 ≡ 3
unfolding root_task_id ah.Retention.climb ah.Retention.max_task_depth parent_task parent_entry
is_root = refl

finish_idle-IsInactive_example :
    All (IsInactive (late_world [])) (tree family 3)
    × (contains_id (map (root_task_id family) (queued (late_world []))) 3 ≡ false)
unfolding contains_id
finish_idle-IsInactive_example =
    finish_idle-IsInactive seconds 500 (late_world []) none family (3 ∷ []) 3 is_finished refl
      is_root
