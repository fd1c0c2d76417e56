-- ===== src/Inbox/Tests.antt =====
-- Runs of the inbox, and its theorems at concrete deliveries.
use ah.Base.{ℕ, ◌≡◌, refl, List, [], ◌∷◌, ◌++◌, some, Text, bytes}
use ah.Inbox.{
  InboxItem, user_steer, task_notification, received_at, is_monitor, shell_output, push, push_all,
  first_received_at, min_option, merge_session, evict, append_monitor, max_monitor_context_sessions,
  same_session, supersede,
}
use ah.Inbox.Bounds.{IsBounded, push_all-IsBounded}
use ah.Inbox.Order.{others, others-push}
use ah.Inbox.Deadline.{first_received_at-push}

abbrev monitor : ℕ → ℕ → InboxItem
unfolding shell_output bytes
monitor id at = task_notification id shell_output (bytes "delivered") (bytes "line\n") at

abbrev steer : InboxItem
unfolding bytes
steer = user_steer (bytes "faster") 30

-- Two sessions and a steer.
abbrev busy : List InboxItem
busy = monitor 1 20 ∷ steer ∷ monitor 2 40 ∷ []

-- A second notification of session 1 replaces the first and keeps its instant.
merged_again : first_received_at (push busy (monitor 1 50)) ≡ some 20
unfolding push merge_session evict append_monitor first_received_at min_option received_at
    same_session supersede shell_output max_monitor_context_sessions is_monitor
merged_again = refl

push_all-IsBounded_example : IsBounded (push_all [] (monitor 1 20 ∷ steer ∷ monitor 1 50 ∷ []))
push_all-IsBounded_example = push_all-IsBounded (monitor 1 20 ∷ steer ∷ monitor 1 50 ∷ [])

first_received_at-push_example :
    first_received_at (push busy (monitor 1 50))
    ≡ some (min_option (first_received_at busy) (received_at (monitor 1 50)))
first_received_at-push_example = first_received_at-push busy (monitor 1 50)

others-push_example : others (push busy (monitor 1 50)) ≡ others busy ++ others (monitor 1 50 ∷ [])
others-push_example = others-push busy (monitor 1 50)

-- Characters of three bytes each: the cut at 25 - 20 bytes falls back to 3.
abbrev wide : Text
unfolding bytes
wide = bytes "中文告警数据很长告警"
