-- ===== src/Schedule/Tests.antt =====
-- A cron expression that fires every 100 ticks, and the decision at concrete instants.
use ah.Base.{ℕ, ◌+◌, ◌-◌, ◌*◌, ◌/◌, ◌%◌, max, ◌≡◌, refl, Bool, [], Option, none, some, ◌==◌, arith}
use ah.Schedule.{
  cron, ScheduleDefinition, fire, expired, new_definition, catch_up_decision, since, spec_decision,
  cron_decision, latest_in_window, latest_from, first_or_none,
}
use ah.Schedule.Missed.{IsNext, Verdict, catch_up_decision-Verdict}

abbrev hundreds : ℕ → Bool
hundreds t = t % 100 == 0

abbrev next_hundred : ℕ → Option ℕ
next_hundred t = some (t / 100 * 100 + 100)

next_hundred-IsNext : IsNext hundreds next_hundred
next_hundred-IsNext from = record {
  later = omega arith;
  hit = ground arith;
  silent = λ v lo hi. ground (arith, lo, hi);
}

abbrev report : ScheduleDefinition
report = new_definition 1 [] none [] [] (cron next_hundred) none 250

made_up : catch_up_decision report 530 300 ≡ fire 500
unfolding catch_up_decision spec_decision cron_decision latest_in_window latest_from since
    new_definition
made_up = refl

too_late : catch_up_decision report 390 50 ≡ expired 300
unfolding catch_up_decision spec_decision cron_decision latest_in_window latest_from since
    new_definition first_or_none
too_late = refl

report_cron : report.schedule ≡ cron next_hundred
unfolding new_definition
report_cron = refl

catch_up_decision-Verdict_example :
    Verdict hundreds
      (since report)
      (max (since report) (530 - 300))
      530
      (catch_up_decision report 530 300)
catch_up_decision-Verdict_example =
    catch_up_decision-Verdict hundreds report next_hundred 530 300 report_cron next_hundred-IsNext
