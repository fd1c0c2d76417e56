-- ===== src/Inbox/Order.antt =====
-- What a delivery leaves alone: every item that is no monitor notification, in order.
use ah.Base.{
  ℕ, ◌≡◌, refl, sym, ◌∙◌, Bool, true, List, [], ◌∷◌, ◌++◌, inl, inr, Text, leb, text_eq, count,
  filter, filter-append, not, remove_first-cases, Removes, Removes-hit, Removes-filter, Bool-cases,
  append-nil,
}
use ah.Inbox.{
  InboxItem, user_steer, task_notification, experience_hint, watchdog_guidance, is_monitor,
  same_session, shell_output, max_monitor_context_sessions, Merged, merge_session, evict,
  append_monitor, push,
}
use ah.Inbox.Note.{supersede-items}
use ah.Inbox.Bounds.{same_session-is_monitor}

-- The items that monitors did not send.
abbrev pub others : List InboxItem → List InboxItem
others = filter (λ item. not (is_monitor item))

others-Removes :
    {p : InboxItem → Bool} {xs ys : List InboxItem} {y : InboxItem}
    → is_monitor y ≡ true
    → Removes p xs y ys
    → others ys ≡ others xs
others-Removes h r = Removes-filter (λ item. not (is_monitor item)) r (rw h refl)

merge_session-others :
    (id at : ℕ) (items : List InboxItem) → others (merge_session id at items).items ≡ others items
unfolding merge_session
merge_session-others id at items = elim (remove_first-cases (same_session id) items) [
  | inl (e, c) ↦ rw (e, merge_session) refl
  | inr (y, ys, e, r) ↦
      rw (e, merge_session, supersede-items at ys y)
        (others-Removes (same_session-is_monitor id y (Removes-hit r)) r)
]

evict-others : (m : Merged) → others (evict m).items ≡ others m.items
unfolding evict
evict-others m = elim (Bool-cases (leb max_monitor_context_sessions (count is_monitor m.items))) [
  | inr few ↦ rw (few, evict) refl
  | inl full ↦ elim (remove_first-cases is_monitor m.items) [
    | inl (e, c) ↦ rw (full, e, evict) refl
    | inr (y, ys, e, r) ↦ rw (full, e, evict) (others-Removes (Removes-hit r) r)
  ]
]

append_monitor-others :
    (id : ℕ) (status summary : Text) (m : Merged)
    → others (append_monitor id status summary m) ≡ others m.items
unfolding append_monitor is_monitor shell_output
append_monitor-others id status summary m =
    filter-append (λ item. not (is_monitor item)) m.items _ ∙ append-nil (others m.items)

-- A delivery neither drops nor reorders a steer, a hint, a guidance or a notification of another
-- source, and adds its own item behind them unless a monitor sent it.
pub others-push :
    (items : List InboxItem) (item : InboxItem)
    → others (push items item) ≡ others items ++ others (item ∷ [])
unfolding push is_monitor
others-push items (task_notification id source status summary at) =
    elim (Bool-cases (text_eq source shell_output)) [
      | inl monitor ↦
          rw (monitor, push)
            (append_monitor-others id status summary (evict (merge_session id at items))
              ∙ evict-others (merge_session id at items)
              ∙ merge_session-others id at items
              ∙ sym (append-nil (others items)))
      | inr other ↦
          rw (other, push) (filter-append (λ item. not (is_monitor item)) items _ ∙ rw other refl)
    ]
others-push items (user_steer content at) = filter-append (λ item. not (is_monitor item)) items _
others-push items (experience_hint content at) =
    filter-append (λ item. not (is_monitor item)) items _
others-push items (watchdog_guidance content at) =
    filter-append (λ item. not (is_monitor item)) items _
