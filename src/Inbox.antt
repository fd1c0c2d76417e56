-- ===== src/Inbox.antt =====
-- `TaskInbox` of src/domain/loop_control.rs: the turn inbox of a task. Identifiers and instants are
-- numbers, texts are byte lists. `Inbox/Excerpt` models the bounded excerpts of monitor summaries.
pub mod Excerpt
mod Note
pub mod Bounds
pub mod Order
pub mod Deadline
mod Tests
use ah.Base.{
  ℕ, ◌+◌, ◌-◌, ◌*◌, ◌≡◌, refl, Bool, true, false, ◌&&◌, ◌||◌, not, List, [], ◌∷◌, ◌++◌, Option,
  none, some, min, Text, bytes, text_eq, starts_with, contains, leb, ◌==◌, if◌then◌else◌, length,
  any, count, filter, remove_first,
}
use Excerpt.{bounded_monitor_text, first_line, replace_newlines}

-- Input that the model has not been sent yet.
pub data InboxItem : Type 0 where
  user_steer : Text → ℕ → InboxItem
  task_notification : ℕ → Text → Text → Text → ℕ → InboxItem
  experience_hint : Text → ℕ → InboxItem
  watchdog_guidance : Text → ℕ → InboxItem

unfoldable pub received_at : InboxItem → ℕ
received_at (user_steer content at) = at
received_at (task_notification job_id source status summary at) = at
received_at (experience_hint content at) = at
received_at (watchdog_guidance content at) = at

unfoldable pub is_user_steer : InboxItem → Bool
is_user_steer (user_steer content at) = true
is_user_steer (task_notification job_id source status summary at) = false
is_user_steer (experience_hint content at) = false
is_user_steer (watchdog_guidance content at) = false

unfoldable pub is_passive : InboxItem → Bool
is_passive (experience_hint content at) = true
is_passive (user_steer content at) = false
is_passive (task_notification job_id source status summary at) = false
is_passive (watchdog_guidance content at) = false

pub max_monitor_context_sessions : ℕ
max_monitor_context_sessions = 32

pub max_monitor_context_bytes : ℕ
max_monitor_context_bytes = 2 * 1024

pub monitor_merged : Text
unfolding bytes
monitor_merged = bytes "[同会话较早通知已合并；完整告警以独立投递与回执为准]\n"

pub monitor_evicted : Text
unfolding bytes
monitor_evicted = bytes "[较早会话摘要已淘汰；完整告警以独立投递与回执为准]\n"

pub monitor_prior_failure : Text
unfolding bytes
monitor_prior_failure = bytes "[先前监控发送失败："

-- The source tag of a monitor's notifications.
pub shell_output : Text
unfolding bytes
shell_output = bytes "shell_output"

unfoldable pub is_monitor : InboxItem → Bool
is_monitor (task_notification job_id source status summary at) = text_eq source shell_output
is_monitor (user_steer content at) = false
is_monitor (experience_hint content at) = false
is_monitor (watchdog_guidance content at) = false

-- A pending notification of the same monitor session.
unfoldable pub same_session : ℕ → InboxItem → Bool
same_session id (task_notification job_id source status summary at) =
    (job_id == id) && text_eq source shell_output
same_session id (user_steer content at) = false
same_session id (experience_hint content at) = false
same_session id (watchdog_guidance content at) = false

-- What the note keeps of the superseded summary: an earlier delivery failure.
pub prior_failure : Text → Text → Text
prior_failure status summary =
    if starts_with summary monitor_prior_failure
    then bounded_monitor_text (first_line summary) 512 ++ 10 ∷ []
    else if text_eq status (bytes "failed") || starts_with status (bytes "failed:")
    then (monitor_prior_failure ++ bounded_monitor_text (replace_newlines summary) 512)
      ++ bytes "]\n"
    else []

pub prior_eviction : Text → Text
prior_eviction summary = if contains summary monitor_evicted then monitor_evicted else []

-- The note, the instant and the items once the pending notification of the session is taken out.
pub record Merged : Type 0 where
  pub note : Text
  pub at : ℕ
  pub items : List InboxItem

pub supersede : ℕ → List InboxItem → InboxItem → Merged
supersede at rest (task_notification job_id source status summary first_at) = record {
  note = (prior_failure status summary ++ prior_eviction summary) ++ monitor_merged;
  at = min at first_at;
  items = rest;
}
supersede at rest _ = record { note = []; at = at; items = rest }

pub merge_session : ℕ → ℕ → List InboxItem → Merged
merge_session id at items = elim (remove_first (same_session id) items) [
  | none ↦ record { note = []; at = at; items = items }
  | some (previous, rest) ↦ supersede at rest previous
]

-- At the limit the oldest pending monitor notification makes room.
pub evict : Merged → Merged
evict m =
    if leb max_monitor_context_sessions (count is_monitor m.items)
    then elim (remove_first is_monitor m.items) [
      | none ↦ m
      | some (previous, rest) ↦ record {
        note = if contains m.note monitor_evicted then m.note else m.note ++ monitor_evicted;
        at = min m.at (received_at previous);
        items = rest;
      }
    ]
    else m

-- The monitor branch ends: the note goes in front of what the limit leaves of the summary.
pub append_monitor : ℕ → Text → Text → Merged → List InboxItem
append_monitor id status summary m =
    m.items
    ++ task_notification id shell_output status
        (m.note ++ bounded_monitor_text summary (max_monitor_context_bytes - length m.note)) m.at
      ∷ []

-- `TaskInbox::push`.
pub push : List InboxItem → InboxItem → List InboxItem
push items (task_notification job_id source status summary at) =
    if text_eq source shell_output
    then append_monitor job_id status summary (evict (merge_session job_id at items))
    else items ++ task_notification job_id source status summary at ∷ []
push items (user_steer content at) = items ++ user_steer content at ∷ []
push items (experience_hint content at) = items ++ experience_hint content at ∷ []
push items (watchdog_guidance content at) = items ++ watchdog_guidance content at ∷ []

-- Deliveries in order, from the inbox that the code starts with.
unfoldable pub push_all : List InboxItem → List InboxItem → List InboxItem
push_all items [] = items
push_all items (new ∷ more) = push_all (push items new) more

-- `TaskInbox::drain_all`: the items handed out, and those left.
pub drain_all : List InboxItem → List InboxItem × List InboxItem
drain_all items = (items, [])

pub has_user_steer : List InboxItem → Bool
has_user_steer = any is_user_steer

pub actionable_len : List InboxItem → ℕ
actionable_len = count (λ item. not (is_passive item))

-- `Iterator::all`.
pub only_passive : List InboxItem → Bool
only_passive [] = true
only_passive (item ∷ items) = is_passive item && only_passive items

pub min_option : Option ℕ → ℕ → ℕ
min_option none at = at
min_option (some first) at = min at first

-- `Iterator::min` over the instants.
pub first_received_at : List InboxItem → Option ℕ
first_received_at [] = none
first_received_at (item ∷ items) = some (min_option (first_received_at items) (received_at item))
