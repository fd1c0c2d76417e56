-- ===== src/Schedule.antt =====
-- Scheduled jobs, src/domain/schedule.rs: their definition and the decision whether a run that was
-- missed is made up for. A cron expression of the crate `cron` is its function `next`: the first
-- instant after a given one at which it fires, if there is one. A schedule expression is its source
-- text and its parsed specification.
mod Missed
mod Tests
use ah.Base.{
  ℕ, zero, suc, ◌-◌, max, Bool, true, false, Option, none, some, Text, leb, ltb, if◌then◌else◌,
}
use ah.Task.{ChannelId}

pub data ScheduleSpec : Type 0 where
  once : ℕ → ScheduleSpec
  cron : (ℕ → Option ℕ) → ScheduleSpec

pub data NotifyPolicy : Type 0 where
  reply explicit : NotifyPolicy

pub record ScheduleHealth : Type 0 where
  pub last_fired_at : Option ℕ
  pub last_success_at : Option ℕ
  pub consecutive_failures : ℕ
  pub alerting : Bool

pub record ScheduleDefinition : Type 0 where
  pub id : ℕ
  pub name : Text
  pub content : Text
  pub raw : Text
  pub schedule : ScheduleSpec
  pub output_channel : Option ChannelId
  pub notify : NotifyPolicy
  pub report_of : Option ℕ
  pub enabled : Bool
  pub created_at : ℕ
  pub health : ScheduleHealth

-- `ScheduleDefinition::new`, with its defaults. `id_prefix` is the beginning of the printed id.
unfoldable pub new_definition :
    ℕ → Text → Option Text → Text → Text → ScheduleSpec → Option ChannelId → ℕ → ScheduleDefinition
new_definition id id_prefix name content raw schedule output_channel created_at = record {
  id = id;
  name = elim name [ none ↦ id_prefix | some n ↦ n ];
  content = content;
  raw = raw;
  schedule = schedule;
  output_channel = output_channel;
  notify = reply;
  report_of = none;
  enabled = true;
  created_at = created_at;
  health = record {
    last_fired_at = none;
    last_success_at = none;
    consecutive_failures = 0;
    alerting = false;
  };
}

pub data CatchUp : Type 0 where
  nothing_missed : CatchUp
  fire : ℕ → CatchUp
  expired : ℕ → CatchUp

-- `after(t)`, taken while not past `now`, its last: `n` bounds the instants looked at.
unfoldable pub latest_from : (ℕ → Option ℕ) → ℕ → ℕ → Option ℕ → ℕ → Option ℕ
latest_from next now zero last t = last
latest_from next now (suc n) last t = elim (next t) [
  | none ↦ last
  | some u ↦ let rest = latest_from next now n (some u) u in if leb u now then rest else last
]

-- Every instant is later than the one before it, so `now - start` of them are enough.
unfoldable pub latest_in_window : (ℕ → Option ℕ) → ℕ → ℕ → Option ℕ
latest_in_window next now start = latest_from next now (now - start) none start

unfoldable pub since : ScheduleDefinition → ℕ
since def = elim def.health.last_fired_at [ none ↦ def.created_at | some at ↦ at ]

-- The last firing, or the creation: runs behind it may have been missed.
-- Without a firing in the window: the first one missed, if it lies before the window.
unfoldable pub first_or_none : Option ℕ → ℕ → CatchUp
first_or_none none start = nothing_missed
first_or_none (some first) start = if leb first start then expired first else nothing_missed

unfoldable pub cron_decision : (ℕ → Option ℕ) → ℕ → ℕ → ℕ → CatchUp
cron_decision next from now window =
    let start = max from (now - window) in
    elim (latest_in_window next now start) [
      | some missed_at ↦ fire missed_at
      | none ↦ first_or_none (next from) start
    ]

unfoldable pub once_decision : ℕ → ℕ → ℕ → CatchUp
once_decision at now window =
    if ltb now at then nothing_missed else if leb (now - at) window then fire at else expired at

unfoldable pub spec_decision : ScheduleSpec → ℕ → ℕ → ℕ → CatchUp
spec_decision (once at) from now window = once_decision at now window
spec_decision (cron next) from now window = cron_decision next from now window

-- `catch_up_decision`.
unfoldable pub catch_up_decision : ScheduleDefinition → ℕ → ℕ → CatchUp
catch_up_decision def now window = spec_decision def.schedule (since def) now window
