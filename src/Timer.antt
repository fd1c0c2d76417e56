-- ===== src/Timer.antt =====
-- src/triggers/timer_scheduler.rs: what the timer sleeps for, and what it fires when it wakes. An
-- instant is a number of nanoseconds; the kind of a schedule is the id in its text `scheduled:<id>`.
-- The channels and the clock are inputs and results.
mod Wakeups
mod Tests
use ah.Accounting.{is_some}
use ah.Base.{
  ℕ, ◌-◌, Bool, true, false, List, [], ◌∷◌, ◌++◌, map, filter, Option, none, some, if◌then◌else◌,
  ltb, leb,
}
use ah.Schedule.{ScheduleDefinition, ScheduleSpec, once, cron}

pub data ScheduledItem : Type 0 where
  cron_item : (kind : ℕ) (schedule : ℕ → Option ℕ) → ScheduledItem
  once_item : (id kind at : ℕ) → ScheduledItem

unfoldable pub item_of : ScheduleDefinition → ScheduleSpec → List ScheduledItem
item_of def (once at) =
    if is_some def.health.last_fired_at then [] else once_item def.id def.id at ∷ []
item_of def (cron next) = cron_item def.id next ∷ []

-- Definitions that are disabled are passed over.
unfoldable pub build_all_schedules : List ScheduleDefinition → List ScheduledItem
build_all_schedules [] = []
build_all_schedules (def ∷ defs) =
    let rest = build_all_schedules defs in
    if def.enabled then item_of def def.schedule ++ rest else rest

pub record Deadline : Type 0 where
  pub at : ℕ
  pub kind : ℕ

unfoldable pub at_kind : Option ℕ → ℕ → List Deadline
at_kind none kind = []
at_kind (some at) kind = record { at = at; kind = kind } ∷ []

unfoldable pub cron_deadlines : ℕ → List ScheduledItem → List Deadline
cron_deadlines now [] = []
cron_deadlines now (cron_item kind next ∷ items) =
    at_kind (next now) kind ++ cron_deadlines now items
cron_deadlines now (once_item id kind at ∷ items) = cron_deadlines now items

unfoldable pub once_deadlines : List ScheduledItem → List Deadline
once_deadlines [] = []
once_deadlines (cron_item kind next ∷ items) = once_deadlines items
once_deadlines (once_item id kind at ∷ items) =
    record { at = at; kind = kind } ∷ once_deadlines items

-- `min_by_key`: the first of the earliest.
unfoldable pub min_from : Deadline → List Deadline → Deadline
min_from best [] = best
min_from best (d ∷ ds) = min_from (if ltb d.at best.at then d else best) ds

unfoldable pub min_by_key : List Deadline → Option Deadline
min_by_key [] = none
min_by_key (d ∷ ds) = some (min_from d ds)

unfoldable pub chain : Option Deadline → Option Deadline → List Deadline
chain none none = []
chain none (some e) = e ∷ []
chain (some d) none = d ∷ []
chain (some d) (some e) = d ∷ e ∷ []

unfoldable pub next_deadline : ℕ → List ScheduledItem → Option Deadline
next_deadline now items =
    min_by_key (chain (min_by_key (cron_deadlines now items)) (min_by_key (once_deadlines items)))

-- A deadline that is past gives no sleep; without a deadline it is a minute.
unfoldable pub sleep_until : ℕ → Option Deadline → ℕ
sleep_until now none = 60000000000
sleep_until now (some d) = d.at - now

unfoldable pub sleep_duration : ℕ → List ScheduledItem → ℕ
sleep_duration now items = sleep_until now (next_deadline now items)

-- The kinds that are sent, and the schedules that are left.
pub record Fired : Type 0 where
  pub sent : List ℕ
  pub schedules : List ScheduledItem

unfoldable pub fire_crons : ℕ → List Deadline → List ℕ
fire_crons now [] = []
fire_crons now (d ∷ ds) =
    let rest = fire_crons now ds in if ltb now d.at then rest else d.kind ∷ rest

-- The loop over the index: `kept` are the schedules below it.
unfoldable pub fire_onces : ℕ → List ScheduledItem → List ScheduledItem → List ℕ → Fired
fire_onces now kept [] sent = record { sent = sent; schedules = kept }
fire_onces now kept (cron_item kind next ∷ items) sent =
    fire_onces now (kept ++ cron_item kind next ∷ []) items sent
fire_onces now kept (once_item id kind at ∷ items) sent =
    if leb at now
    then fire_onces now kept items (sent ++ kind ∷ [])
    else fire_onces now (kept ++ once_item id kind at ∷ []) items sent

-- The end of a sleep that was computed at `before`, at `now`.
unfoldable pub wake : ℕ → ℕ → List ScheduledItem → Fired
wake before now schedules =
    fire_onces now [] schedules (fire_crons now (cron_deadlines before schedules))
