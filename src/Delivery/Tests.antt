-- ===== src/Delivery/Tests.antt =====
-- Sends of two tasks: delivered, refused, rejected, and answered after the task is forgotten.
use ah.Base.{◌≡◌, ◌^◌, ◌-◌, refl, false, List, [], ◌∷◌, none, some, min, All}
use ah.Delivery.Agreement.{IsOrderly, under_way_after, delivered_after, pending_for-handle_all}
use ah.Delivery.Forgotten.{is_begin, forget-handle_all}
use ah.Delivery.{
  DeliveryEvent, begins, answers, rejects, polls, forgets, delivered, undelivered, default_tracker,
  handle_all, poll_receipts, pending_for, notified_for, failure_for, forget,
}

-- Task 1 begins four sends, of which one stays under way; task 2 is forgotten on the way.
abbrev sends : List DeliveryEvent
sends =
    begins 1
    ∷ begins 1
    ∷ begins 2
    ∷ answers 1 (delivered none)
    ∷ polls
    ∷ begins 1
    ∷ rejects 1 (7 ∷ [])
    ∷ forgets 2
    ∷ begins 1
    ∷ answers 2 (delivered none)
    ∷ answers 1 (undelivered (8 ∷ []))
    ∷ []

sends-IsOrderly : IsOrderly 1 sends 0
unfolding IsOrderly ah.Delivery.Agreement.is_orderly ah.Delivery.Agreement.under_way
sends-IsOrderly =
    (refl, (refl, (refl, (refl, (refl, (refl, (refl, (refl, (refl, (refl, (refl, tt)))))))))))

failure_for_test : failure_for 1 (poll_receipts (handle_all sends default_tracker)) ≡ some (8 ∷ [])
unfolding failure_for ah.Delivery.entry_failure poll_receipts ah.Delivery.receive_all handle_all
    ah.Delivery.handle ah.Delivery.answer ah.Delivery.begin forget ah.Delivery.reject
    ah.Delivery.put ah.Delivery.receive
failure_for_test = refl

pending_for-handle_all_example :
    (pending_for 1 (poll_receipts (handle_all sends default_tracker)) ≡ under_way_after 1 sends 0)
    × (notified_for 1 (poll_receipts (handle_all sends default_tracker))
        ≡ min (delivered_after 1 sends) (2 ^ 32 - 1))
pending_for-handle_all_example = pending_for-handle_all 1 sends sends-IsOrderly

under_way_after_test : under_way_after 1 sends 0 ≡ 1
unfolding under_way_after ah.Delivery.Agreement.under_way
under_way_after_test = refl

-- An answer that comes late, and one of another task.
abbrev late : List DeliveryEvent
late = answers 1 (delivered none) ∷ begins 2 ∷ polls ∷ rejects 1 (9 ∷ []) ∷ []

late-begins_none : All (λ e. is_begin 1 e ≡ false) late
unfolding is_begin
late-begins_none = (refl, (refl, (refl, (refl, tt))))

forget-handle_all_example :
    (pending_for 1 (handle_all late (forget 1 (handle_all sends default_tracker))) ≡ 0)
    × (notified_for 1 (handle_all late (forget 1 (handle_all sends default_tracker))) ≡ 0)
    × (failure_for 1 (handle_all late (forget 1 (handle_all sends default_tracker))) ≡ none)
forget-handle_all_example =
    forget-handle_all 1 late (handle_all sends default_tracker) late-begins_none
