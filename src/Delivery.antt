-- ===== src/Delivery.antt =====
-- src/systems/schedule_delivery.rs: the receipts of the sends of a scheduled run. The channel is the
-- list of the receipts that wait in it, the map a function.
mod Agreement
mod Forgotten
mod Receipts
mod Tests
use ah.Base.{
  ℕ, ◌+◌, ◌-◌, ◌^◌, Bool, true, false, List, [], ◌∷◌, ◌++◌, Option, none, some, Text, ◌==◌,
  if◌then◌else◌, min,
}

pub record DeliveryCounts : Type 0 where
  pub pending : ℕ
  pub notified : ℕ
  pub failure : Option Text

unfoldable pub no_counts : DeliveryCounts
no_counts = record { pending = 0; notified = 0; failure = none }

-- `Result<Option<String>, String>`.
pub data DeliveryResult : Type 0 where
  delivered : Option Text → DeliveryResult
  undelivered : Text → DeliveryResult

pub record Receipt : Type 0 where
  pub task_id : ℕ
  pub result : DeliveryResult

pub record ScheduleDeliveryTracker : Type 0 where
  pub by_task : ℕ → Option DeliveryCounts
  pub queue : List Receipt

unfoldable pub default_tracker : ScheduleDeliveryTracker
default_tracker = record { by_task = λ id. none; queue = [] }

unfoldable pub put :
    ℕ → Option DeliveryCounts → (ℕ → Option DeliveryCounts) → ℕ → Option DeliveryCounts
put id entry by_task other = if id == other then entry else by_task other

unfoldable pub or_default : Option DeliveryCounts → DeliveryCounts
or_default none = no_counts
or_default (some counts) = counts

unfoldable pub begun : Option DeliveryCounts → DeliveryCounts
begun entry = let counts = or_default entry in record counts { pending = counts.pending + 1 }

-- `begin`: the callback that it returns is `answer` at the same task.
unfoldable pub begin : ℕ → ScheduleDeliveryTracker → ScheduleDeliveryTracker
begin id s = record s { by_task = put id (some (begun (s.by_task id))) s.by_task }

unfoldable pub answer : ℕ → DeliveryResult → ScheduleDeliveryTracker → ScheduleDeliveryTracker
answer id result s = record s { queue = s.queue ++ record { task_id = id; result = result } ∷ [] }

unfoldable pub rejected : Text → Option DeliveryCounts → Option DeliveryCounts
rejected error none = none
rejected error (some counts) =
    some (record counts { pending = counts.pending - 1; failure = some error })

unfoldable pub reject : ℕ → Text → ScheduleDeliveryTracker → ScheduleDeliveryTracker
reject id error s = record s { by_task = put id (rejected error (s.by_task id)) s.by_task }

unfoldable pub receive : DeliveryResult → Option DeliveryCounts → Option DeliveryCounts
receive result none = none
receive (delivered id) (some counts) = some (record counts {
  pending = counts.pending - 1;
  notified = min (counts.notified + 1) (2 ^ 32 - 1);
})
receive (undelivered error) (some counts) =
    some (record counts { pending = counts.pending - 1; failure = some error })

unfoldable pub receive_all : List Receipt → (ℕ → Option DeliveryCounts) → ℕ → Option DeliveryCounts
receive_all [] by_task = by_task
receive_all (r ∷ rs) by_task =
    receive_all rs (put r.task_id (receive r.result (by_task r.task_id)) by_task)

unfoldable pub poll_receipts : ScheduleDeliveryTracker → ScheduleDeliveryTracker
poll_receipts s = record { by_task = receive_all s.queue s.by_task; queue = [] }

unfoldable pub entry_pending : Option DeliveryCounts → ℕ
entry_pending none = 0
entry_pending (some counts) = counts.pending

unfoldable pub entry_notified : Option DeliveryCounts → ℕ
entry_notified none = 0
entry_notified (some counts) = counts.notified

unfoldable pub entry_failure : Option DeliveryCounts → Option Text
entry_failure none = none
entry_failure (some counts) = counts.failure

unfoldable pub pending_for : ℕ → ScheduleDeliveryTracker → ℕ
pending_for id s = entry_pending (s.by_task id)

unfoldable pub notified_for : ℕ → ScheduleDeliveryTracker → ℕ
notified_for id s = entry_notified (s.by_task id)

unfoldable pub failure_for : ℕ → ScheduleDeliveryTracker → Option Text
failure_for id s = entry_failure (s.by_task id)

unfoldable pub forget : ℕ → ScheduleDeliveryTracker → ScheduleDeliveryTracker
forget id s = record s { by_task = put id none s.by_task }

-- The calls of the tracker, in any order.
pub data DeliveryEvent : Type 0 where
  begins : ℕ → DeliveryEvent
  answers : ℕ → DeliveryResult → DeliveryEvent
  rejects : ℕ → Text → DeliveryEvent
  polls : DeliveryEvent
  forgets : ℕ → DeliveryEvent

unfoldable pub handle : DeliveryEvent → ScheduleDeliveryTracker → ScheduleDeliveryTracker
handle (begins id) s = begin id s
handle (answers id result) s = answer id result s
handle (rejects id error) s = reject id error s
handle polls s = poll_receipts s
handle (forgets id) s = forget id s

unfoldable pub handle_all : List DeliveryEvent → ScheduleDeliveryTracker → ScheduleDeliveryTracker
handle_all [] s = s
handle_all (e ∷ es) s = handle_all es (handle e s)
