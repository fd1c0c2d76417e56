-- ===== src/Inbox/Deadline.antt =====
-- The instant of the first pending item, from which the wake-up is timed.
use ah.Base.{
  ℕ, ◌≡◌, refl, sym, ◌∙◌, ap, Bool, List, [], ◌∷◌, ◌++◌, Option, none, some, inl, inr, arith, leb,
  min, text_eq, count, remove_first-cases, Removes, hit, miss, Removes-hit, Bool-cases,
}
use ah.Inbox.{
  InboxItem, user_steer, task_notification, experience_hint, watchdog_guidance, received_at,
  is_monitor, same_session, shell_output, max_monitor_context_sessions, Merged, supersede,
  merge_session, evict, append_monitor, push, min_option, first_received_at,
}

min_option_swap :
    (o : Option ℕ) (a b : ℕ)
    → min_option (some (min_option o a)) b ≡ min_option (some (min_option o b)) a
unfolding min_option
min_option_swap none a b = omega arith
min_option_swap (some c) a b = omega arith

-- The merged items and instant together have one first instant.
abbrev first_with : List InboxItem → ℕ → ℕ
first_with items at = min_option (first_received_at items) at

first_received_at-append :
    (xs : List InboxItem) (x : InboxItem)
    → first_received_at (xs ++ x ∷ []) ≡ some (first_with xs (received_at x))
unfolding first_received_at
first_received_at-append [] x = refl
first_received_at-append (y ∷ ys) x =
    ap (λ o. some (min_option o (received_at y))) (first_received_at-append ys x)
    ∙ ap some (min_option_swap (first_received_at ys) (received_at x) (received_at y))

first_received_at-Removes :
    {p : InboxItem → Bool} {xs ys : List InboxItem} {y : InboxItem}
    → Removes p xs y ys
    → first_received_at xs ≡ some (first_with ys (received_at y))
unfolding first_received_at
first_received_at-Removes (hit h) = refl
first_received_at-Removes (miss {x = x} {y = y} {ys = ys} h r) =
    ap (λ o. some (min_option o (received_at x))) (first_received_at-Removes r)
    ∙ ap some (min_option_swap (first_received_at ys) (received_at y) (received_at x))

min_option-min :
    (o : Option ℕ) (a b : ℕ) → min_option o (min a b) ≡ min_option (some (min_option o b)) a
unfolding min_option
min_option-min none a b = omega arith
min_option-min (some c) a b = omega arith

-- Taking an item out and lowering the instant to its own changes no first instant.
first_with-Removes :
    {p : InboxItem → Bool} {xs ys : List InboxItem} {y : InboxItem} (at : ℕ)
    → Removes p xs y ys
    → first_with ys (min at (received_at y)) ≡ first_with xs at
first_with-Removes {ys = ys} {y = y} at r =
    min_option-min (first_received_at ys) at (received_at y)
    ∙ ap (λ o. min_option o at) (sym (first_received_at-Removes r))

supersede-first :
    (id at : ℕ) (items ys : List InboxItem) (y : InboxItem)
    → Removes (same_session id) items y ys
    → first_with (supersede at ys y).items (supersede at ys y).at ≡ first_with items at
unfolding supersede received_at same_session
supersede-first id at items ys (task_notification job source status summary first) r =
    first_with-Removes at r
supersede-first id at items ys (user_steer content first) r = cc (Removes-hit r)
supersede-first id at items ys (experience_hint content first) r = cc (Removes-hit r)
supersede-first id at items ys (watchdog_guidance content first) r = cc (Removes-hit r)

merge_session-first :
    (id at : ℕ) (items : List InboxItem)
    → let m = merge_session id at items in first_with m.items m.at ≡ first_with items at
unfolding merge_session
merge_session-first id at items = elim (remove_first-cases (same_session id) items) [
  | inl (e, c) ↦ rw (e, merge_session) refl
  | inr (y, ys, e, r) ↦ rw (e, merge_session) (supersede-first id at items ys y r)
]

evict-first : (m : Merged) → first_with (evict m).items (evict m).at ≡ first_with m.items m.at
unfolding evict
evict-first m = elim (Bool-cases (leb max_monitor_context_sessions (count is_monitor m.items))) [
  | inr few ↦ rw (few, evict) refl
  | inl full ↦ elim (remove_first-cases is_monitor m.items) [
    | inl (e, c) ↦ rw (full, e, evict) refl
    | inr (y, ys, e, r) ↦ rw (full, e, evict) (first_with-Removes m.at r)
  ]
]

-- After a delivery the first instant is the earlier of the delivery's own and the first one so far:
-- merging and evicting monitor notifications never puts the wake-up off.
pub first_received_at-push :
    (items : List InboxItem) (item : InboxItem)
    → first_received_at (push items item)
      ≡ some (min_option (first_received_at items) (received_at item))
unfolding push received_at append_monitor
first_received_at-push items (task_notification id source status summary at) =
    elim (Bool-cases (text_eq source shell_output)) [
      | inl monitor ↦
          let m = merge_session id at items in
          rw (monitor, push, append_monitor)
            (first_received_at-append (evict m).items _
              ∙ ap some (evict-first m ∙ merge_session-first id at items))
      | inr other ↦ rw (other, push) (first_received_at-append items _)
    ]
first_received_at-push items (user_steer content at) = first_received_at-append items _
first_received_at-push items (experience_hint content at) = first_received_at-append items _
first_received_at-push items (watchdog_guidance content at) = first_received_at-append items _
