-- ===== src/Timer/Tests.antt =====
-- A timer over two cron schedules and two one-shot ones.
use ah.Base.{ℕ, ◌+◌, ◌≡◌, refl, List, [], ◌∷◌, Option, none, some, true, false}
use ah.Schedule.{ScheduleDefinition, ScheduleSpec, once, reply}
use ah.Timer.{
  ScheduledItem, cron_item, once_item, build_all_schedules, cron_deadlines, once_deadlines,
  sleep_duration, wake,
}

abbrev items : List ScheduledItem
items =
    cron_item 1 (λ t. some (t + 50))
    ∷ once_item 2 2 130
    ∷ cron_item 3 (λ t. none)
    ∷ once_item 4 4 900
    ∷ []

sleep_duration_test : sleep_duration 100 items ≡ 30
unfolding sleep_duration ah.Timer.sleep_until ah.Timer.next_deadline ah.Timer.min_by_key
    ah.Timer.chain cron_deadlines ah.Timer.at_kind once_deadlines ah.Timer.min_from
sleep_duration_test = refl

sleep_duration_idle_test : sleep_duration 100 [] ≡ 60000000000
unfolding sleep_duration ah.Timer.sleep_until ah.Timer.next_deadline ah.Timer.min_by_key
    ah.Timer.chain cron_deadlines once_deadlines
sleep_duration_idle_test = refl

abbrev definition : ℕ → ScheduleSpec → Option ℕ → ScheduleDefinition
definition id schedule last_fired_at = record {
  id = id;
  name = [];
  content = [];
  raw = [];
  schedule = schedule;
  output_channel = none;
  notify = reply;
  report_of = none;
  enabled = true;
  created_at = 0;
  health = record {
    last_fired_at = last_fired_at;
    last_success_at = none;
    consecutive_failures = 0;
    alerting = false;
  };
}

-- A one-shot schedule that has fired is not scheduled again.
build_all_schedules_test :
    build_all_schedules (definition 1 (once 50) (some 50) ∷ definition 2 (once 900) none ∷ [])
    ≡ once_item 2 2 900 ∷ []
unfolding build_all_schedules ah.Timer.item_of ah.Accounting.is_some
build_all_schedules_test = refl

wake_test : (wake 100 160 items).sent ≡ 1 ∷ 2 ∷ []
unfolding wake ah.Timer.fire_onces ah.Timer.fire_crons cron_deadlines ah.Timer.at_kind
wake_test = refl
