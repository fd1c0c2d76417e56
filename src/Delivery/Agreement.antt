-- ===== src/Delivery/Agreement.antt =====
-- What the tracker of src/systems/schedule_delivery.rs says of a task whose sends each end once.
use ah.Base.{
  ℕ, ◌+◌, ◌-◌, ◌^◌, ◌≤◌, ◌≡◌, refl, sym, ap, ◌∙◌, Bool, true, List, [], ◌∷◌, Option, none, some,
  Text, ◌==◌, if◌then◌else◌, min, arith, inl, inr, Bool-cases, subst, not, false≢true,
}
use ah.Delivery.{
  DeliveryCounts, DeliveryResult, ScheduleDeliveryTracker, default_tracker, no_counts, or_default,
  begun, begin, answer, rejected, reject, poll_receipts, entry_pending, entry_notified, pending_for,
  notified_for, forget, DeliveryEvent, begins, answers, rejects, polls, forgets, handle, handle_all,
}
use ah.Delivery.Receipts.{
  queued-snoc, receive_all-pending, waiting_good-snoc, put-at, put-elsewhere, receive_all-notified,
  queued, waiting_good, is_delivered,
}

-- The sends of a task that are under way: begun, and neither answered nor rejected.
unfoldable pub under_way : ℕ → DeliveryEvent → ℕ → ℕ
under_way t (begins id) n = if id == t then n + 1 else n
under_way t (answers id result) n = if id == t then n - 1 else n
under_way t (rejects id error) n = if id == t then n - 1 else n
under_way t polls n = n
under_way t (forgets id) n = n

unfoldable pub under_way_after : ℕ → List DeliveryEvent → ℕ → ℕ
under_way_after t [] n = n
under_way_after t (e ∷ es) n = under_way_after t es (under_way t e n)

-- Only a send that is under way ends, and the task is not forgotten.
unfoldable pub is_orderly : ℕ → DeliveryEvent → ℕ → Bool
is_orderly t (begins id) n = true
is_orderly t (answers id result) n = if id == t then not (n == 0) else true
is_orderly t (rejects id error) n = if id == t then not (n == 0) else true
is_orderly t polls n = true
is_orderly t (forgets id) n = not (id == t)

unfoldable pub IsOrderly : ℕ → List DeliveryEvent → ℕ → Type 0
IsOrderly t [] n = Unit
IsOrderly t (e ∷ es) n = (is_orderly t e n ≡ true) × IsOrderly t es (under_way t e n)

-- Whether a call tells of a send that was delivered to the task.
unfoldable pub delivered_by : ℕ → DeliveryEvent → ℕ
delivered_by t (answers id result) = if id == t then is_delivered result else 0
delivered_by t (begins id) = 0
delivered_by t (rejects id error) = 0
delivered_by t polls = 0
delivered_by t (forgets id) = 0

unfoldable pub delivered_after : ℕ → List DeliveryEvent → ℕ
delivered_after t [] = 0
delivered_after t (e ∷ es) = delivered_by t e + delivered_after t es

-- The tracker agrees with `n` sends under way and `k` delivered ones.
record Agrees (t n k : ℕ) (s : ScheduleDeliveryTracker) : Type 0 where
  pend : entry_pending (s.by_task t) ≡ n + queued t s.queue
  note :
      min (entry_notified (s.by_task t) + waiting_good t s.queue) (2 ^ 32 - 1) ≡ min k (2 ^ 32 - 1)
  small : entry_notified (s.by_task t) ≤ 2 ^ 32 - 1

or_default-counts :
    (entry : Option DeliveryCounts)
    → (entry_pending (some (begun entry)) ≡ entry_pending entry + 1)
      × (entry_notified (some (begun entry)) ≡ entry_notified entry)
unfolding entry_pending entry_notified begun or_default no_counts
or_default-counts none = (refl, refl)
or_default-counts (some counts) = (refl, refl)

rejected-counts :
    (error : Text) (entry : Option DeliveryCounts)
    → (entry_pending (rejected error entry) ≡ entry_pending entry - 1)
      × (entry_notified (rejected error entry) ≡ entry_notified entry)
unfolding entry_pending entry_notified rejected
rejected-counts error none = (refl, refl)
rejected-counts error (some counts) = (refl, refl)

-- A change of the entry alone, to `n'` sends under way.
entry-Agrees :
    (t n n' k : ℕ) (s s' : ScheduleDeliveryTracker)
    → s'.queue ≡ s.queue
    → entry_notified (s'.by_task t) ≡ entry_notified (s.by_task t)
    → entry_pending (s'.by_task t) ≡ n' + queued t s.queue
    → Agrees t n k s
    → Agrees t n' (k + 0) s'
entry-Agrees t n n' k s s' q v p a =
    let w : waiting_good t s'.queue ≡ waiting_good t s.queue = ap (waiting_good t) q in
    record {
      pend = p ∙ sym (ap (λ rs. n' + queued t rs) q);
      note = omega (arith, a.note, v, w);
      small = omega (arith, a.small, v);
    }

answer-Agrees :
    (t n k id : ℕ) (result : DeliveryResult) (s : ScheduleDeliveryTracker)
    → is_orderly t (answers id result) n ≡ true
    → Agrees t n k s
    → Agrees t
        (under_way t (answers id result) n)
        (k + delivered_by t (answers id result))
        (answer id result s)
unfolding is_orderly under_way delivered_by answer
answer-Agrees t n k id result s o a =
    let q = queued-snoc t s.queue (record { task_id = id; result = result }) in
    let w = waiting_good-snoc t s.queue (record { task_id = id; result = result }) in
    record {
      pend = ground (arith, a.pend, q, o);
      note = ground (arith, a.note, w);
      small = a.small;
    }

handle-Agrees :
    (t n k : ℕ) (e : DeliveryEvent) (s : ScheduleDeliveryTracker)
    → is_orderly t e n ≡ true
    → Agrees t n k s
    → Agrees t (under_way t e n) (k + delivered_by t e) (handle e s)
unfolding handle is_orderly under_way delivered_by begin reject forget poll_receipts
handle-Agrees t n k (begins id) s o a = elim (Bool-cases (id == t)) [
  | inl h ↦
      let c = or_default-counts (s.by_task t) in
      let here = put-at t id s.by_task (λ c. some (begun c)) h in
      rw h (
        entry-Agrees t n (n + 1) k s _ refl (ap entry_notified here ∙ c.1)
          (ap entry_pending here ∙ c.0 ∙ omega (arith, a.pend)) a)
  | inr h ↦
      let there = put-elsewhere t id (some (begun (s.by_task id))) s.by_task h in
      rw h (
        entry-Agrees t n n k s _ refl (ap entry_notified there) (ap entry_pending there ∙ a.pend) a)
]
handle-Agrees t n k (answers id result) s o a = answer-Agrees t n k id result s o a
handle-Agrees t n k (rejects id error) s o a = elim (Bool-cases (id == t)) [
  | inl h ↦
      let c = rejected-counts error (s.by_task t) in
      let here = put-at t id s.by_task (rejected error) h in
      rw h (
        entry-Agrees t n (n - 1) k s _ refl (ap entry_notified here ∙ c.1)
          (ap entry_pending here ∙ c.0 ∙ ground (arith, a.pend, o, h)) a)
  | inr h ↦
      let there = put-elsewhere t id (rejected error (s.by_task id)) s.by_task h in
      rw h (
        entry-Agrees t n n k s _ refl (ap entry_notified there) (ap entry_pending there ∙ a.pend) a)
]
handle-Agrees t n k polls s o a =
    let p = receive_all-pending t s.queue s.by_task in
    let v = receive_all-notified t s.queue s.by_task (omega (arith, a.pend)) a.small in
    record {
      pend = p ∙ unfold queued in omega (arith, a.pend);
      note = unfold waiting_good in omega (arith, a.note, v);
      small = omega (arith, v);
    }
handle-Agrees t n k (forgets id) s o a = elim (Bool-cases (id == t)) [
  | inl h ↦ absurd (false≢true (rw h at o))
  | inr h ↦
      let there = put-elsewhere t id none s.by_task h in
      entry-Agrees t n n k s _ refl (ap entry_notified there) (ap entry_pending there ∙ a.pend) a
]

handle_all-Agrees :
    (t n k : ℕ) (es : List DeliveryEvent) (s : ScheduleDeliveryTracker)
    → IsOrderly t es n
    → Agrees t n k s
    → Agrees t (under_way_after t es n) (k + delivered_after t es) (handle_all es s)
unfolding handle_all IsOrderly under_way_after delivered_after
handle_all-Agrees t n k [] s o a = subst (λ m. Agrees t n m s) (omega arith) a
handle_all-Agrees t n k (e ∷ es) s (o, os) a =
    subst (λ m. Agrees t (under_way_after t es (under_way t e n)) m (handle_all es (handle e s)))
      (omega arith)
      (handle_all-Agrees t (under_way t e n) (k + delivered_by t e) es (handle e s) os
        (handle-Agrees t n k e s o a))

fresh-Agrees : (t : ℕ) → Agrees t 0 0 default_tracker
unfolding default_tracker entry_pending entry_notified queued waiting_good
fresh-Agrees t = record { pend = refl; note = refl; small = omega arith }

-- Whatever is called on a fresh tracker, if of a task only sends that are under way are answered or
-- rejected and the task is not forgotten: when the receipts are polled, the pending count of the task
-- is the number of its sends under way, and the notified count the number of those that were
-- answered as delivered, at most 2 ^ 32 - 1.
pub pending_for-handle_all :
    (t : ℕ) (es : List DeliveryEvent)
    → IsOrderly t es 0
    → (pending_for t (poll_receipts (handle_all es default_tracker)) ≡ under_way_after t es 0)
      × (notified_for t (poll_receipts (handle_all es default_tracker))
          ≡ min (delivered_after t es) (2 ^ 32 - 1))
unfolding pending_for notified_for poll_receipts
pending_for-handle_all t es o =
    let s = handle_all es default_tracker in
    let a = handle_all-Agrees t 0 0 es default_tracker o (fresh-Agrees t) in
    (
      receive_all-pending t s.queue s.by_task ∙ omega (arith, a.pend),
      receive_all-notified t s.queue s.by_task (omega (arith, a.pend)) a.small
          ∙ omega (arith, a.note),
    )
