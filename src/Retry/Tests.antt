-- ===== src/Retry/Tests.antt =====
-- The retries of concrete tasks.
use ah.Chrono.{Chrono}
use ah.Base.{◌*◌, ◌≤◌, ◌≡◌, refl, false, List, [], ◌∷◌, none, some, arith, length}
use ah.Errors
use ah.Errors.{ExecutionError}
use ah.Task.{
  Task, ChannelId, FrontendKind, from_user_input, ready, failed, schedule_retry, delay_ticks,
  mark_ready_for_retry, mark_failed, is_terminal,
}
use ah.Retry.{
  RetryDeadline, take_due, project, clear, handle_error, retry_wakeup, retry_ready, is_current,
}
use ah.Retry.Flow.{Event, fails, wakes, ingests, readies, run, step, start, run_retries}
use ah.Retry.Laws.{failures, run-failures_exhaust, run_resumes}

abbrev milliseconds : Chrono
milliseconds = record {
  try_seconds = λ n. some (1000 * n);
  max_duration = 9_223_372_036_854_775_807;
  seconds = λ n. 1000 * n;
  from_std = λ n. some (1000 * n);
}

abbrev terminal : ChannelId
terminal = record { frontend = FrontendKind.tui; user_id = []; thread_id = none }

-- A task that may be retried once.
abbrev once : Task
unfolding from_user_input
once = from_user_input 7 0 [] 1 terminal

abbrev reset : ExecutionError
reset = ExecutionError.transport []

-- An error, its retry two seconds later, and a second error.
abbrev history : List Event
history =
    fails reset none false false 100
    ∷ wakes none 2100
    ∷ ingests
    ∷ readies [] 2100
    ∷ fails reset none false false 2200
    ∷ []

history_fails :
    (run milliseconds (start once) history).task.status ≡ failed (Errors.to_failure_reason reset)
unfolding from_user_input run step start ah.Retry.handle_failure is_terminal handle_error
    schedule_retry Errors.is_retryable Errors.retry_delay retry_wakeup is_current retry_ready
    mark_ready_for_retry mark_failed
history_fails = refl

run_retries_example :
    let f = run milliseconds (start (from_user_input 7 0 [] 1 terminal)) history in
    (f.task.retry_count ≤ 1) × (length f.dispatched ≤ f.task.retry_count)
run_retries_example = run_retries milliseconds 7 0 1 [] terminal history (omega arith)

-- A second error after the failure changes nothing.
late_error_dropped :
    (run milliseconds (start once) (failures ((reset, 100) ∷ (reset, 2200) ∷ (reset, 2300) ∷ [])))
    ≡ run milliseconds (start once) (failures ((reset, 100) ∷ (reset, 2200) ∷ []))
unfolding from_user_input run step start ah.Retry.handle_failure is_terminal handle_error
    schedule_retry Errors.is_retryable Errors.retry_delay mark_failed
late_error_dropped = refl

run-failures_exhaust_example :
    (run milliseconds (start once) (
      failures
        ((reset, 100) ∷ (reset, 2200) ∷ (ExecutionError.authentication [], 2300) ∷ []))).task.status
    ≡ failed (Errors.to_failure_reason reset)
unfolding from_user_input start Errors.is_retryable is_terminal
run-failures_exhaust_example =
    run-failures_exhaust milliseconds (start once) ((reset, 100) ∷ []) reset 2200
      ((ExecutionError.authentication [], 2300) ∷ []) refl (refl, tt) (omega arith) (omega arith)

-- The monotonic clock read 40 when the wall clock read 100; the deadline is 2040.
abbrev empty_deadline : RetryDeadline
empty_deadline = record { deadline = none; wall = none; due = false; due_wall = none }

run_resumes_example :
    let schedule = take_due 2050 (project 1000000 40 2100 100 (clear empty_deadline)) in
    let f = run milliseconds (start once) (
      fails reset none false false 100
      ∷ wakes (some schedule) 2110
      ∷ ingests
      ∷ readies [] 2110
      ∷ []) in
    (f.task.status ≡ ready) × (f.task.next_retry_at ≡ none) × (length f.dispatched ≡ 1)
unfolding from_user_input Errors.is_retryable Errors.retry_delay delay_ticks is_terminal
run_resumes_example =
    run_resumes milliseconds [] once reset 100 2110 1000000 40 100 2050 empty_deadline refl refl
      (omega arith) (omega arith) (omega arith)

-- The wall clock was set back when the deadline passed: the wake-up is sent and dropped, and no other
-- one is sent, however late the system looks.
set_back :
    let schedule = take_due 2050 (project 1000000 40 2100 100 (clear empty_deadline)) in
    (run milliseconds (start once) (
      fails reset none false false 100
      ∷ wakes (some schedule) 1500
      ∷ ingests
      ∷ readies [] 1500
      ∷ wakes (some (take_due 9000 schedule)) 9100
      ∷ ingests
      ∷ readies [] 9100
      ∷ [])).task
    ≡ schedule_retry milliseconds once reset 100
unfolding from_user_input run step start ah.Retry.handle_failure is_terminal handle_error
    schedule_retry Errors.is_retryable Errors.retry_delay retry_wakeup is_current retry_ready
    mark_ready_for_retry take_due project clear ah.Retry.is_past ah.Retry.checked_add
set_back = refl

abbrev waiting_task : Task
unfolding schedule_retry Errors.retry_delay from_user_input
waiting_task = schedule_retry milliseconds once reset 100
