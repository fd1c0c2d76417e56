-- ===== src/Timer/Wakeups.antt =====
-- The timer of src/triggers/timer_scheduler.rs wakes in time, and fires what is due.
use ah.Base.{ℕ, ◌+◌, ◌≤◌, Bool, true, not, List, map, filter, leb, All, max}
use ah.Timer.{ScheduledItem, cron_item, once_item, Deadline}

IsFirst : Deadline → List Deadline → Type 0
IsFirst m ds = All (λ d. m.at ≤ d.at) ds

-- What a sleep to an instant does for a list of deadlines.
IsTimely : ℕ → ℕ → List Deadline → Type 0
IsTimely now sleep ds = All (λ d. now + sleep ≤ max d.at now) ds

-- The kinds of the deadlines that are due.
unfoldable pub due_kinds : ℕ → List Deadline → List ℕ
due_kinds now ds = map (λ d. d.kind) (filter (λ d. leb d.at now) ds)

-- The schedules that a waking at `now` leaves.
unfoldable pub is_left : ℕ → ScheduledItem → Bool
is_left now (cron_item kind next) = true
is_left now (once_item id kind at) = not (leb at now)
