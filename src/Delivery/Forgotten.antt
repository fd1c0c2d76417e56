-- ===== src/Delivery/Forgotten.antt =====
-- A task that the tracker of src/systems/schedule_delivery.rs has forgotten.
use ah.Base.{
  ℕ, ◌≡◌, ap, ◌∙◌, Bool, false, List, [], ◌∷◌, Option, none, ◌==◌, arith, inl, inr, Bool-cases, All,
}
use ah.Delivery.{
  DeliveryCounts, Receipt, ScheduleDeliveryTracker, begin, answer, rejected, reject, receive,
  receive_all, poll_receipts, entry_pending, entry_notified, pending_for, notified_for, forget,
  failure_for, entry_failure, DeliveryEvent, begins, answers, rejects, polls, forgets, handle,
  handle_all,
}
use ah.Delivery.Receipts.{put-here, put-at, put-elsewhere}

-- The calls without one that begins a send of the task.
unfoldable pub is_begin : ℕ → DeliveryEvent → Bool
is_begin t (begins id) = id == t
is_begin t (answers id result) = false
is_begin t (rejects id error) = false
is_begin t polls = false
is_begin t (forgets id) = false

receive_all-none :
    (t : ℕ) (rs : List Receipt) (by_task : ℕ → Option DeliveryCounts)
    → by_task t ≡ none
    → receive_all rs by_task t ≡ none
unfolding receive_all receive
receive_all-none t [] by_task h = h
receive_all-none t (r ∷ rs) by_task h =
    receive_all-none t rs _ (elim (Bool-cases (r.task_id == t)) [
      | inl e ↦ put-here t r by_task e ∙ ap (receive r.result) h
      | inr e ↦ put-elsewhere t r.task_id _ by_task e ∙ h
    ])

handle-none :
    (t : ℕ) (e : DeliveryEvent) (s : ScheduleDeliveryTracker)
    → is_begin t e ≡ false
    → s.by_task t ≡ none
    → (handle e s).by_task t ≡ none
unfolding handle is_begin begin answer reject poll_receipts forget rejected
handle-none t (begins id) s b h = put-elsewhere t id _ s.by_task b ∙ h
handle-none t (answers id result) s b h = h
handle-none t (rejects id error) s b h = elim (Bool-cases (id == t)) [
  | inl e ↦ put-at t id s.by_task (rejected error) e ∙ ap (rejected error) h
  | inr e ↦ put-elsewhere t id _ s.by_task e ∙ h
]
handle-none t polls s b h = receive_all-none t s.queue s.by_task h
handle-none t (forgets id) s b h = elim (Bool-cases (id == t)) [
  | inl e ↦ put-at t id s.by_task (λ c. none) e
  | inr e ↦ put-elsewhere t id none s.by_task e ∙ h
]

handle_all-none :
    (t : ℕ) (es : List DeliveryEvent) (s : ScheduleDeliveryTracker)
    → All (λ e. is_begin t e ≡ false) es
    → s.by_task t ≡ none
    → (handle_all es s).by_task t ≡ none
unfolding handle_all
handle_all-none t [] s b h = h
handle_all-none t (e ∷ es) s (b, bs) h =
    handle_all-none t es (handle e s) bs (handle-none t e s b h)

-- Once a task is forgotten, whatever waited in the queue and whatever is called after that, late
-- receipts and rejections included: until a send of the task begins again, it has no pending and no
-- notified sends and no failure.
pub forget-handle_all :
    (t : ℕ) (es : List DeliveryEvent) (s : ScheduleDeliveryTracker)
    → All (λ e. is_begin t e ≡ false) es
    → (pending_for t (handle_all es (forget t s)) ≡ 0)
      × (notified_for t (handle_all es (forget t s)) ≡ 0)
      × (failure_for t (handle_all es (forget t s)) ≡ none)
unfolding pending_for notified_for failure_for entry_pending entry_notified entry_failure forget
forget-handle_all t es s b =
    let gone =
      handle_all-none t es (forget t s) b
        (unfold forget in put-at t t s.by_task (λ c. none) (ground arith)) in
    (ap entry_pending gone, ap entry_notified gone, ap entry_failure gone)
