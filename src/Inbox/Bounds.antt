-- ===== src/Inbox/Bounds.antt =====
-- What the pending monitor notifications of an inbox cost: how many, and how long.
use ah.Base.{
  ℕ, ◌-◌, ◌≤◌, ◌≡◌, refl, Bool, true, false, List, [], ◌∷◌, ◌++◌, inl, inr, arith, Text, leb,
  ==_iff, if◌then◌else◌, length, count, All, text_eq, length-append, count-append, All-append,
  remove_first-cases, Removes, Removes-hit, Removes-count, Removes-All, Bool-cases, leb_false→lt,
}
use ah.Inbox.Excerpt.{bounded_monitor_text, length-bounded_monitor_text}
use ah.Inbox.{
  InboxItem, user_steer, task_notification, experience_hint, watchdog_guidance, is_monitor,
  same_session, shell_output, max_monitor_context_sessions, max_monitor_context_bytes, Merged,
  merge_session, evict, append_monitor, push, push_all,
}
use ah.Inbox.Note.{supersede-items, merge_session-note, evict-note}

-- The summary of a pending monitor notification fits the byte limit.
abbrev pub Fits : InboxItem → Type 0
Fits (task_notification job_id source status summary at) =
    length (if text_eq source shell_output then summary else []) ≤ 2048
Fits (user_steer content at) = Unit
Fits (experience_hint content at) = Unit
Fits (watchdog_guidance content at) = Unit

pub record IsBounded (items : List InboxItem) : Type 0 where
  pub sessions : count is_monitor items ≤ 32
  pub distinct : (id : ℕ) → count (same_session id) items ≤ 1
  pub excerpts : All Fits items

-- What removing items keeps: no count grows, and what is left still fits.
record Shrinks (before after : List InboxItem) : Type 0 where
  fewer : (q : InboxItem → Bool) → count q after ≤ count q before
  fits : All Fits before → All Fits after

Shrinks-refl : (items : List InboxItem) → Shrinks items items
Shrinks-refl items = record { fewer = λ q. omega arith; fits = λ a. a }

Shrinks-Removes :
    {p : InboxItem → Bool} {xs ys : List InboxItem} {y : InboxItem}
    → Removes p xs y ys
    → Shrinks xs ys
Shrinks-Removes r = record {
  fewer = λ q. omega (arith, Removes-count q r);
  fits = Removes-All Fits r;
}

merge_session-Shrinks :
    (id at : ℕ) (items : List InboxItem) → Shrinks items (merge_session id at items).items
unfolding merge_session
merge_session-Shrinks id at items = elim (remove_first-cases (same_session id) items) [
  | inl (e, c) ↦ rw (e, merge_session) (Shrinks-refl items)
  | inr (y, ys, e, r) ↦ rw (e, merge_session, supersede-items at ys y) (Shrinks-Removes r)
]

-- No notification of the session is left beside the new one.
merge_session-absent :
    (id at : ℕ) (items : List InboxItem)
    → count (same_session id) items ≤ 1
    → count (same_session id) (merge_session id at items).items ≡ 0
unfolding merge_session
merge_session-absent id at items h = elim (remove_first-cases (same_session id) items) [
  | inl (e, c) ↦ rw (e, merge_session) c
  | inr (y, ys, e, r) ↦
      rw (e, merge_session, supersede-items at ys y)
        (ground (arith, Removes-count (same_session id) r, Removes-hit r))
]

evict-Shrinks : (m : Merged) → Shrinks m.items (evict m).items
unfolding evict
evict-Shrinks m = elim (Bool-cases (leb max_monitor_context_sessions (count is_monitor m.items))) [
  | inr few ↦ rw (few, evict) (Shrinks-refl m.items)
  | inl full ↦ elim (remove_first-cases is_monitor m.items) [
    | inl (e, c) ↦ rw (full, e, evict) (Shrinks-refl m.items)
    | inr (y, ys, e, r) ↦ rw (full, e, evict) (Shrinks-Removes r)
  ]
]

evict-room : (m : Merged) → count is_monitor m.items ≤ 32 → count is_monitor (evict m).items ≤ 31
unfolding evict max_monitor_context_sessions
evict-room m h = elim (Bool-cases (leb max_monitor_context_sessions (count is_monitor m.items))) [
  | inr few ↦ rw (few, evict) (omega (arith, leb_false→lt _ _ few))
  | inl full ↦ elim (remove_first-cases is_monitor m.items) [
    | inl (e, c) ↦ rw (full, e, evict) (omega (arith, c))
    | inr (y, ys, e, r) ↦
        rw (full, e, evict) (ground (arith, Removes-count is_monitor r, Removes-hit r))
  ]
]

pub same_session-is_monitor :
    (id : ℕ) (item : InboxItem) → same_session id item ≡ true → is_monitor item ≡ true
unfolding same_session is_monitor
same_session-is_monitor id (task_notification job source status summary at) h = ground arith
same_session-is_monitor id (user_steer content at) h = cc
same_session-is_monitor id (experience_hint content at) h = cc
same_session-is_monitor id (watchdog_guidance content at) h = cc

append_monitor-IsBounded :
    (id : ℕ) (status summary : Text) (m : Merged)
    → count is_monitor m.items ≤ 31
    → ((j : ℕ) → count (same_session j) m.items ≤ 1)
    → count (same_session id) m.items ≡ 0
    → All Fits m.items
    → length m.note ≤ 770
    → IsBounded (append_monitor id status summary m)
unfolding append_monitor is_monitor same_session max_monitor_context_bytes shell_output
append_monitor-IsBounded id status summary m room distinct absent fits note = record {
  sessions = rw (count-append is_monitor m.items _) (omega arith);
  distinct = λ j.
      rw (count-append (same_session j) m.items _)
        (ground (arith, distinct j, ==_iff id j, absent));
  excerpts = All-append Fits m.items _ fits (
    omega (
      arith,
      length-append m.note (bounded_monitor_text summary (2048 - length m.note)),
      length-bounded_monitor_text summary (2048 - length m.note),
    ),
    tt,
  );
}

append_other-IsBounded :
    (items : List InboxItem) (item : InboxItem)
    → is_monitor item ≡ false
    → Fits item
    → IsBounded items
    → IsBounded (items ++ item ∷ [])
append_other-IsBounded items item other fit b = record {
  sessions = rw (count-append is_monitor items _) (ground (arith, b.sessions));
  distinct = λ j.
      rw (count-append (same_session j) items _)
        (ground (arith, b.distinct j, same_session-is_monitor j item));
  excerpts = All-append Fits items _ b.excerpts (fit, tt);
}

-- Delivering an item to an inbox whose pending monitor notifications number at most 32, are of
-- distinct sessions and hold at most 2048 bytes of summary each, leaves an inbox with all three.
pub push-IsBounded :
    (items : List InboxItem) (item : InboxItem) → IsBounded items → IsBounded (push items item)
unfolding push
push-IsBounded items (task_notification id source status summary at) b =
    elim (Bool-cases (text_eq source shell_output)) [
      | inl monitor ↦
          rw (monitor, push)
            (let m = merge_session id at items in
              let kept = merge_session-Shrinks id at items in
              let left = evict-Shrinks m in
              append_monitor-IsBounded id status summary (evict m)
                (evict-room m (omega (arith, kept.fewer is_monitor, b.sessions)))
                (λ j.
                  omega
                    (arith, left.fewer (same_session j), kept.fewer (same_session j), b.distinct j))
                (omega (
                  arith,
                  left.fewer (same_session id),
                  merge_session-absent id at items (b.distinct id),
                ))
                (left.fits (kept.fits b.excerpts)) (evict-note m (merge_session-note id at items)))
      | inr other ↦
          rw (other, push)
            (append_other-IsBounded items _ (unfold is_monitor in other) (rw other (omega arith)) b)
    ]
push-IsBounded items (user_steer content at) b =
    append_other-IsBounded items _ (unfold is_monitor in refl) tt b
push-IsBounded items (experience_hint content at) b =
    append_other-IsBounded items _ (unfold is_monitor in refl) tt b
push-IsBounded items (watchdog_guidance content at) b =
    append_other-IsBounded items _ (unfold is_monitor in refl) tt b

push_all-keeps : (items more : List InboxItem) → IsBounded items → IsBounded (push_all items more)
unfolding push_all
push_all-keeps items [] b = b
push_all-keeps items (item ∷ more) b =
    push_all-keeps (push items item) more (push-IsBounded items item b)

-- Whatever is delivered to an inbox that starts empty, in any order: at most 32 monitor
-- notifications are pending, at most one for each session, and each summary has at most 2048 bytes.
pub push_all-IsBounded : (more : List InboxItem) → IsBounded (push_all [] more)
push_all-IsBounded more =
    push_all-keeps [] more
      (record { sessions = omega arith; distinct = λ j. omega arith; excerpts = tt })
