-- ===== src/Retry/Flow.antt =====
-- Failures and wake-ups of one task in any order: the steps of the systems, one at a time.
use ah.Chrono.{Chrono}
use ah.Base.{
  ℕ, ◌+◌, ◌^◌, ◌≤◌, ◌<◌, ◌≡◌, refl, Bool, List, [], ◌∷◌, ◌++◌, Option, none, some, Text, arith,
  if◌then◌else◌, length, length-append,
}
use ah.Errors.{ExecutionError}
use ah.Task.{
  Task, TaskStatus, ChannelId, from_user_input, schedule_retry, mark_ready_for_retry, mark_waiting,
  mark_failed,
}
use ah.Retry.{
  is_backoff, handle_error, handle_failure, RetryDeadline, Wakeup, is_current, retry_wakeup, Agent,
  retry_ready,
}

-- The task with the retry signals and messages on their way, and the dispatches it was given.
pub record Flow : Type 0 where
  pub task : Task
  pub emitted : Option Wakeup
  pub signals : List Wakeup
  pub messages : List Wakeup
  pub dispatched : List (Option Text)

pub data Event : Type 0 where
  fails : ExecutionError → Option ℕ → Bool → Bool → ℕ → Event
  wakes : Option RetryDeadline → ℕ → Event
  ingests : Event
  readies : List Agent → ℕ → Event

unfoldable pub add_signal : Option Wakeup → List Wakeup → List Wakeup
add_signal none signals = signals
add_signal (some w) signals = signals ++ w ∷ []

-- The `RetryWakeup` arm on the oldest signal.
unfoldable pub ingest : Flow → List Wakeup → Flow
ingest f [] = f
ingest f (w ∷ signals) =
    if is_current f.task w
    then record f { signals = signals; messages = f.messages ++ w ∷ [] }
    else record f { signals = signals }

unfoldable pub add_dispatch : Option (Option Text) → List (Option Text) → List (Option Text)
add_dispatch none dispatched = dispatched
add_dispatch (some hint) dispatched = dispatched ++ hint ∷ []

unfoldable pub take_message : Flow → List Wakeup → List Agent → ℕ → Flow
unfolding add_dispatch
take_message f [] agents now = f
take_message f (w ∷ messages) agents now =
    let (t, hint) = retry_ready agents f.task w now in
    record f { task = t; messages = messages; dispatched = add_dispatch hint f.dispatched }

unfoldable pub step : Chrono → Flow → Event → Flow
unfolding add_signal ingest take_message
step chrono f (fails error calling reporting has_jobs now) = record f {
  task = (handle_failure chrono f.task error calling reporting has_jobs now).task;
}
step chrono f (wakes schedule now) =
    let (ticket, sent) = retry_wakeup schedule f.emitted f.task now in
    record f { emitted = ticket; signals = add_signal sent f.signals }
step chrono f ingests = ingest f f.signals
step chrono f (readies agents now) = take_message f f.messages agents now

unfoldable pub run : Chrono → Flow → List Event → Flow
run chrono f [] = f
run chrono f (e ∷ events) = run chrono (step chrono f e) events

unfoldable pub start : Task → Flow
start t = record { task = t; emitted = none; signals = []; messages = []; dispatched = [] }

abbrev in_backoff : TaskStatus → ℕ
in_backoff s = if is_backoff s then 1 else 0

record Inv (limit : ℕ) (f : Flow) : Type 0 where
  cap : f.task.max_retries ≡ limit
  counted : f.task.retry_count ≤ limit
  spent : length f.dispatched + in_backoff f.task.status ≤ f.task.retry_count

fails-Inv :
    (chrono : Chrono) (limit : ℕ) (f : Flow) (error : ExecutionError) (calling : Option ℕ)
    (reporting has_jobs : Bool) (now : ℕ)
    → limit < 2 ^ 32
    → Inv limit f
    → Inv limit (step chrono f (fails error calling reporting has_jobs now))
unfolding step handle_failure handle_error schedule_retry mark_waiting mark_failed is_backoff
fails-Inv chrono limit f error calling reporting has_jobs now h v = ground arith

abbrev given : Option (Option Text) → ℕ
given none = 0
given (some hint) = 1

length-add_dispatch :
    (hint : Option (Option Text)) (dispatched : List (Option Text))
    → length (add_dispatch hint dispatched) ≡ length dispatched + given hint
unfolding add_dispatch
length-add_dispatch none dispatched = omega arith
length-add_dispatch (some hint) dispatched = length-append dispatched (hint ∷ [])

-- A dispatch costs the backoff state, and the counters stay.
record Woken (t : Task) (r : Task × Option (Option Text)) : Type 0 where
  weight : given r.1 + in_backoff r.0.status ≤ in_backoff t.status
  count : r.0.retry_count ≡ t.retry_count
  cap : r.0.max_retries ≡ t.max_retries

retry_ready-Woken :
    (agents : List Agent) (t : Task) (w : Wakeup) (now : ℕ) → Woken t (retry_ready agents t w now)
unfolding retry_ready mark_ready_for_retry
retry_ready-Woken agents t w now = ground arith

take_message-Inv :
    (limit : ℕ) (f : Flow) (messages : List Wakeup) (agents : List Agent) (now : ℕ)
    → Inv limit f
    → Inv limit (take_message f messages agents now)
unfolding take_message
take_message-Inv limit f [] agents now v = v
take_message-Inv limit f (w ∷ messages) agents now v = omega (
  arith,
  v,
  retry_ready-Woken agents f.task w now,
  length-add_dispatch (retry_ready agents f.task w now).1 f.dispatched,
)

ingest-Inv :
    (limit : ℕ) (f : Flow) (signals : List Wakeup) → Inv limit f → Inv limit (ingest f signals)
unfolding ingest
ingest-Inv limit f [] v = v
ingest-Inv limit f (w ∷ signals) v = ground arith

step-Inv :
    (chrono : Chrono) (limit : ℕ) (f : Flow) (e : Event)
    → limit < 2 ^ 32
    → Inv limit f
    → Inv limit (step chrono f e)
unfolding step
step-Inv chrono limit f (fails error calling reporting has_jobs now) h v =
    fails-Inv chrono limit f error calling reporting has_jobs now h v
step-Inv chrono limit f (wakes schedule now) h v = record {
  cap = v.cap;
  counted = v.counted;
  spent = v.spent;
}
step-Inv chrono limit f ingests h v = ingest-Inv limit f f.signals v
step-Inv chrono limit f (readies agents now) h v = take_message-Inv limit f f.messages agents now v

run-Inv :
    (chrono : Chrono) (limit : ℕ) (f : Flow) (events : List Event)
    → limit < 2 ^ 32
    → Inv limit f
    → Inv limit (run chrono f events)
unfolding run
run-Inv chrono limit f [] h v = v
run-Inv chrono limit f (e ∷ events) h v =
    run-Inv chrono limit (step chrono f e) events h (step-Inv chrono limit f e h v)

-- A task created from user input with a `max_retries` that fits its `u32`: whatever errors, wake-ups,
-- signals and messages follow, its retry count never passes `max_retries`, and it is dispatched anew
-- at most so many times as it was scheduled for a retry.
pub run_retries :
    (chrono : Chrono) (id now limit : ℕ) (content : Text) (channel : ChannelId)
    (events : List Event)
    → limit < 2 ^ 32
    → let f = run chrono (start (from_user_input id now content limit channel)) events in
      (f.task.retry_count ≤ limit) × (length f.dispatched ≤ f.task.retry_count)
run_retries chrono id now limit content channel events h =
    let v = run-Inv chrono limit (start (from_user_input id now content limit channel)) events h (
      unfold start from_user_input is_backoff in
      record { cap = refl; counted = omega arith; spent = omega arith }) in
    (v.counted, omega (arith, v.spent))
