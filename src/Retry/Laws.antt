-- ===== src/Retry/Laws.antt =====
-- When a retry gives up, and that one which is scheduled comes back once it is due.
use ah.Chrono.{Chrono}
use ah.Base.{
  ℕ, suc, ◌+◌, ◌^◌, ◌%◌, ◌≤◌, ◌<◌, ◌≡◌, refl, true, false, List, [], ◌∷◌, ◌++◌, Option, none, some,
  arith, length, All, ap, ◌∙◌, ◌-◌, leb, Bool-cases, inl, inr,
}
use ah.Errors
use ah.Errors.{ExecutionError}
use ah.Task.{
  Task, ready, failed, schedule_retry, delay_ticks, mark_ready_for_retry, mark_failed, is_terminal,
}
use ah.Retry.{
  is_backoff, handle_error, handle_failure, due_now, expired_at, holds, checked_add, is_past,
  project, clear, take_due, RetryDeadline, Wakeup, is_current, retry_wakeup, Agent, retry_ready,
}
use ah.Retry.Flow.{Flow, Event, fails, wakes, ingests, readies, step, run, start}

-- Errors that come one after another while no background report is under way.
abbrev pub failures : List (ExecutionError × ℕ) → List Event
failures [] = []
failures ((e, now) ∷ more) = fails e none false false now ∷ failures more

abbrev pub Retryable : ExecutionError × ℕ → Type 0
Retryable (e, now) = Errors.is_retryable e ≡ true

fails_again :
    (chrono : Chrono) (f : Flow) (e : ExecutionError) (now : ℕ)
    → is_terminal f.task.status ≡ false
    → Errors.is_retryable e ≡ true
    → f.task.retry_count < f.task.max_retries
    → f.task.max_retries < 2 ^ 32
    → let t = (step chrono f (fails e none false false now)).task in
      (t.retry_count ≡ suc f.task.retry_count)
      × (t.max_retries ≡ f.task.max_retries)
      × (is_terminal t.status ≡ false)
unfolding step handle_failure handle_error schedule_retry is_terminal
fails_again chrono f e now o h room fits = ground arith

fails_last :
    (chrono : Chrono) (f : Flow) (e : ExecutionError) (now : ℕ)
    → is_terminal f.task.status ≡ false
    → f.task.max_retries ≤ f.task.retry_count
    → (step chrono f (fails e none false false now)).task.status
      ≡ failed (Errors.to_failure_reason e)
unfolding step handle_failure handle_error mark_failed
fails_last chrono f e now o h = ground arith

failures-dropped :
    (chrono : Chrono) (f : Flow) (late : List (ExecutionError × ℕ))
    → is_terminal f.task.status ≡ true
    → (run chrono f (failures late)).task ≡ f.task
unfolding run step handle_failure
failures-dropped chrono f [] o = refl
failures-dropped chrono f ((e, now) ∷ late) o =
    let f' = step chrono f (fails e none false false now) in
    let same : f'.task ≡ f.task = rw o refl in
    failures-dropped chrono f' late (ap (λ t. is_terminal t.status) same ∙ o) ∙ same

-- When retryable errors have used up the retries that were left to a task that is not terminal, the
-- next error of any kind fails the task for its own reason, if no background report is under way; and
-- the task stays failed for this reason, whatever late errors follow.
pub run-failures_exhaust :
    (chrono : Chrono) (f : Flow) (errors : List (ExecutionError × ℕ)) (e : ExecutionError) (now : ℕ)
    (late : List (ExecutionError × ℕ))
    → is_terminal f.task.status ≡ false
    → All Retryable errors
    → f.task.retry_count + length errors ≡ f.task.max_retries
    → f.task.max_retries < 2 ^ 32
    → (run chrono f (failures (errors ++ (e, now) ∷ late))).task.status
      ≡ failed (Errors.to_failure_reason e)
unfolding run is_terminal
run-failures_exhaust chrono f [] e now late o a n fits =
    let f' = step chrono f (fails e none false false now) in
    let ended = fails_last chrono f e now o (omega arith) in
    ap (λ t. t.status) (failures-dropped chrono f' late (ap is_terminal ended)) ∙ ended
run-failures_exhaust chrono f ((e', at) ∷ errors) e now late o a n fits =
    let f' = step chrono f (fails e' none false false at) in
    let (more, same, live) = fails_again chrono f e' at o a.0 (omega arith) fits in
    run-failures_exhaust chrono f' errors e now late live a.1 (omega arith) (omega arith)

-- While the task does not change, a wake-up is sent at most once, at whatever instants and under
-- whatever deadlines the system looks.
pub retry_wakeup_once :
    (schedule later_schedule : Option RetryDeadline) (emitted : Option Wakeup) (t : Task)
    (now later : ℕ) (w : Wakeup)
    → (retry_wakeup schedule emitted t now).1 ≡ some w
    → (retry_wakeup later_schedule (retry_wakeup schedule emitted t now).0 t later).1 ≡ none
unfolding retry_wakeup
retry_wakeup_once schedule later_schedule emitted t now later w h = ground arith

-- The instant at which the retry of an error at `now` is due.
abbrev pub due_at : Chrono → Task → ExecutionError → ℕ → ℕ
due_at chrono t e now =
    now + delay_ticks chrono (chrono.from_std (Errors.retry_delay e ((t.retry_count + 1) % 2 ^ 32)))

handle_failure-retries :
    (chrono : Chrono) (t : Task) (e : ExecutionError) (now : ℕ)
    → is_terminal t.status ≡ false
    → Errors.is_retryable e ≡ true
    → t.retry_count < t.max_retries
    → (handle_failure chrono t e none false false now).task ≡ schedule_retry chrono t e now
unfolding handle_failure handle_error
handle_failure-retries chrono t e now o h room = ground arith

wakes_due :
    (chrono : Chrono) (schedule : Option RetryDeadline) (t : Task) (at now : ℕ)
    → is_backoff t.status ≡ true
    → t.next_retry_at ≡ some at
    → due_now schedule at now ≡ true
    → let w : Wakeup = record { retry_count = t.retry_count; retry_at = at } in
      step chrono (start t) (wakes schedule now)
      ≡ record (start t) { emitted = some w; signals = w ∷ [] }
unfolding step start retry_wakeup
wakes_due chrono schedule t at now b n h = ground arith

ingests_current :
    (chrono : Chrono) (t : Task) (w : Wakeup)
    → is_current t w ≡ true
    → step chrono (record (start t) { emitted = some w; signals = w ∷ [] }) ingests
      ≡ record (start t) { emitted = some w; messages = w ∷ [] }
unfolding step start
ingests_current chrono t w c = ground arith

readies_due :
    (chrono : Chrono) (agents : List Agent) (t : Task) (w : Wakeup) (now : ℕ)
    → is_current t w ≡ true
    → w.retry_at ≤ now
    → let f =
        step chrono
          (record (start t) { emitted = some w; messages = w ∷ [] })
          (readies agents now) in
      (f.task.status ≡ ready) × (f.task.next_retry_at ≡ none) × (length f.dispatched ≡ 1)
unfolding step start retry_ready is_current mark_ready_for_retry
readies_due chrono agents t w now c h = ground arith

fails-retries :
    (chrono : Chrono) (t : Task) (e : ExecutionError) (now : ℕ)
    → is_terminal t.status ≡ false
    → Errors.is_retryable e ≡ true
    → t.retry_count < t.max_retries
    → step chrono (start t) (fails e none false false now) ≡ start (schedule_retry chrono t e now)
unfolding step start
fails-retries chrono t e now o h room = ap start (handle_failure-retries chrono t e now o h room)

-- The wake-up that a scheduled retry waits for.
abbrev planned_wakeup : Chrono → Task → ExecutionError → ℕ → Wakeup
planned_wakeup chrono t e now = record {
  retry_count = (schedule_retry chrono t e now).retry_count;
  retry_at = due_at chrono t e now;
}

schedule_retry-is_current :
    (chrono : Chrono) (t : Task) (e : ExecutionError) (now : ℕ)
    → is_current (schedule_retry chrono t e now) (planned_wakeup chrono t e now) ≡ true
unfolding schedule_retry is_current
schedule_retry-is_current chrono t e now = ground arith

-- A deadline that was projected from `origin` and taken at an instant that it does not pass is due at
-- its wall-clock instant, and so is one that an Instant could not hold.
take_due-project :
    (latest origin at clock late later : ℕ) (d : RetryDeadline)
    → origin + (at - clock) ≤ late
    → at ≤ later
    → due_now (some (take_due late (project latest origin at clock (clear d)))) at later ≡ true
unfolding due_now expired_at take_due project clear checked_add is_past holds
take_due-project latest origin at clock late later d h w =
    elim (Bool-cases (leb (origin + (at - clock)) latest)) [
      | inl e ↦ rw e (ground (arith, h))
      | inr e ↦ rw e (ground (arith, w))
    ]

-- A retryable error with retries left puts a task that is not terminal into backoff. Its deadline is
-- projected on the monotonic clock, whatever deadline was cleared before. When the runtime takes the
-- due deadlines at an instant that this one does not pass, and the wall clock is at the instant of
-- the retry or later, the systems in turn send its wake-up, pass it on and make the task ready, with
-- one dispatch and no retry planned.
pub run_resumes :
    (chrono : Chrono) (agents : List Agent) (t : Task) (e : ExecutionError) (now later : ℕ)
    (latest origin clock late : ℕ) (d : RetryDeadline)
    → is_terminal t.status ≡ false
    → Errors.is_retryable e ≡ true
    → t.retry_count < t.max_retries
    → origin + (due_at chrono t e now - clock) ≤ late
    → due_at chrono t e now ≤ later
    → let schedule =
        take_due late (project latest origin (due_at chrono t e now) clock (clear d)) in
      let f = run chrono (start t) (
        fails e none false false now
        ∷ wakes (some schedule) later
        ∷ ingests
        ∷ readies agents later
        ∷ []) in
      (f.task.status ≡ ready) × (f.task.next_retry_at ≡ none) × (length f.dispatched ≡ 1)
unfolding run
run_resumes chrono agents t e now later latest origin clock late d o h room passed due =
    let t' = schedule_retry chrono t e now in
    let at = due_at chrono t e now in
    let w = planned_wakeup chrono t e now in
    let current = schedule_retry-is_current chrono t e now in
    rw
      (
        fails-retries chrono t e now o h room,
        wakes_due chrono (some (take_due late (project latest origin at clock (clear d)))) t' at
            later (unfold schedule_retry is_backoff in refl) (unfold schedule_retry in refl)
            (take_due-project latest origin at clock late later d passed due),
        ingests_current chrono t' w current,
      )
      (readies_due chrono agents t' w later current due)
