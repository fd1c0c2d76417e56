-- ===== src/Delivery/Receipts.antt =====
-- What one receipt, and what the receipts that wait, do to the counts of a task.
use ah.Base.{
  ℕ, ◌+◌, ◌-◌, ◌^◌, ◌≤◌, ◌≡◌, refl, sym, ap, ◌∙◌, true, false, List, [], ◌∷◌, ◌++◌, Option, none,
  some, ◌==◌, if◌then◌else◌, min, arith, inl, inr, Bool-cases, ==_iff, subst,
}
use ah.Delivery.{
  DeliveryCounts, DeliveryResult, delivered, undelivered, Receipt, put, receive, receive_all,
  entry_pending, entry_notified,
}

unfoldable pub queued : ℕ → List Receipt → ℕ
queued t [] = 0
queued t (r ∷ rs) = let rest = queued t rs in if r.task_id == t then 1 + rest else rest

pub queued-snoc :
    (t : ℕ) (rs : List Receipt) (r : Receipt)
    → queued t (rs ++ r ∷ []) ≡ queued t rs + (if r.task_id == t then 1 else 0)
unfolding queued
queued-snoc t [] r = ground arith
queued-snoc t (q ∷ rs) r = ground (arith, queued-snoc t rs r)

pub receive-pending :
    (result : DeliveryResult) (entry : Option DeliveryCounts)
    → entry_pending (receive result entry) ≡ entry_pending entry - 1
unfolding receive entry_pending
receive-pending result none = refl
receive-pending (delivered id) (some counts) = refl
receive-pending (undelivered error) (some counts) = refl

pub put-pending :
    (t id : ℕ) (entry : Option DeliveryCounts) (by_task : ℕ → Option DeliveryCounts)
    → entry_pending (put id entry by_task t)
      ≡ (if id == t then entry_pending entry else entry_pending (by_task t))
unfolding put
put-pending t id entry by_task = elim (Bool-cases (id == t)) [
  | inl e ↦ rw e refl
  | inr e ↦ rw e refl
]

pub receive_all-pending :
    (t : ℕ) (rs : List Receipt) (by_task : ℕ → Option DeliveryCounts)
    → entry_pending (receive_all rs by_task t) ≡ entry_pending (by_task t) - queued t rs
unfolding receive_all queued
receive_all-pending t [] by_task = omega arith
receive_all-pending t (r ∷ rs) by_task =
    receive_all-pending t rs _
    ∙ ap (λ n. n - queued t rs)
        (put-pending t r.task_id (receive r.result (by_task r.task_id)) by_task)
    ∙ elim (Bool-cases (r.task_id == t)) [
      | inl e ↦ rw e (
          let same : r.task_id ≡ t = (==_iff r.task_id t).0 e in
          rw (receive-pending r.result (by_task r.task_id), same) (omega arith))
      | inr e ↦ rw e refl
    ]

-- The sends that a receipt, or the receipts that wait, report as delivered to the task.
unfoldable pub is_delivered : DeliveryResult → ℕ
is_delivered (delivered id) = 1
is_delivered (undelivered error) = 0

unfoldable pub waiting_good : ℕ → List Receipt → ℕ
waiting_good t [] = 0
waiting_good t (r ∷ rs) =
    let rest = waiting_good t rs in if r.task_id == t then is_delivered r.result + rest else rest

pub waiting_good-snoc :
    (t : ℕ) (rs : List Receipt) (r : Receipt)
    → waiting_good t (rs ++ r ∷ [])
      ≡ waiting_good t rs + (if r.task_id == t then is_delivered r.result else 0)
unfolding waiting_good
waiting_good-snoc t [] r = ground arith
waiting_good-snoc t (q ∷ rs) r = ground (arith, waiting_good-snoc t rs r)

pub receive-notified :
    (result : DeliveryResult) (entry : Option DeliveryCounts)
    → 1 ≤ entry_pending entry
    → entry_notified entry ≤ 2 ^ 32 - 1
    → entry_notified (receive result entry)
      ≡ min (entry_notified entry + is_delivered result) (2 ^ 32 - 1)
unfolding receive entry_notified entry_pending is_delivered
receive-notified result none h b = absurd (omega (arith, h))
receive-notified (delivered id) (some counts) h b = refl
receive-notified (undelivered error) (some counts) h b = omega (arith, b)

-- The entry of the task behind a receipt.
pub put-here :
    (t : ℕ) (r : Receipt) (by_task : ℕ → Option DeliveryCounts)
    → (r.task_id == t) ≡ true
    → put r.task_id (receive r.result (by_task r.task_id)) by_task t ≡ receive r.result (by_task t)
unfolding put
put-here t r by_task e = rw e (ap (λ i. receive r.result (by_task i)) ((==_iff r.task_id t).0 e))

pub put-elsewhere :
    (t id : ℕ) (entry : Option DeliveryCounts) (by_task : ℕ → Option DeliveryCounts)
    → (id == t) ≡ false
    → put id entry by_task t ≡ by_task t
unfolding put
put-elsewhere t id entry by_task e = rw e refl

pub receive_all-notified :
    (t : ℕ) (rs : List Receipt) (by_task : ℕ → Option DeliveryCounts)
    → queued t rs ≤ entry_pending (by_task t)
    → entry_notified (by_task t) ≤ 2 ^ 32 - 1
    → entry_notified (receive_all rs by_task t)
      ≡ min (entry_notified (by_task t) + waiting_good t rs) (2 ^ 32 - 1)
unfolding receive_all queued waiting_good
receive_all-notified t [] by_task h b = omega (arith, b)
receive_all-notified t (r ∷ rs) by_task h b =
    let next = put r.task_id (receive r.result (by_task r.task_id)) by_task in
    elim (Bool-cases (r.task_id == t)) [
      | inl e ↦
          let some_wait : 1 + queued t rs ≤ entry_pending (by_task t) = rw e at h in
          let pend : entry_pending (next t) ≡ entry_pending (by_task t) - 1 =
            ap entry_pending (put-here t r by_task e) ∙ receive-pending r.result (by_task t) in
          let note : entry_notified (next t)
              ≡ min (entry_notified (by_task t) + is_delivered r.result) (2 ^ 32 - 1) =
            ap entry_notified (put-here t r by_task e)
            ∙ receive-notified r.result (by_task t) (omega (arith, some_wait)) b in
          rw e (
            receive_all-notified t rs next (omega (arith, some_wait, pend)) (omega (arith, note))
            ∙ omega (arith, note))
      | inr e ↦
          let same : next t ≡ by_task t = put-elsewhere t r.task_id _ by_task e in
          let no_more : queued t rs ≤ entry_pending (by_task t) = rw e at h in
          rw e (
            receive_all-notified t rs next
              (subst (λ c. queued t rs ≤ entry_pending c) (sym same) no_more)
              (subst (λ c. entry_notified c ≤ 2 ^ 32 - 1) (sym same) b)
            ∙ ap (λ c. min (entry_notified c + waiting_good t rs) (2 ^ 32 - 1)) same)
    ]

pub put-at :
    (t id : ℕ) (by_task : ℕ → Option DeliveryCounts)
    (f : Option DeliveryCounts → Option DeliveryCounts)
    → (id == t) ≡ true
    → put id (f (by_task id)) by_task t ≡ f (by_task t)
unfolding put
put-at t id by_task f e = rw e (ap (λ i. f (by_task i)) ((==_iff id t).0 e))
