-- ===== src/Inbox/Note.antt =====
-- How long the note in front of a merged summary gets.
use ah.Base.{
  ℕ, ◌≤◌, ◌≡◌, refl, List, [], ◌∷◌, ◌++◌, inl, inr, arith, Text, bytes, length, length-append,
  remove_first-cases,
}
use ah.Inbox.Excerpt.{
  bounded_monitor_text, length-bounded_monitor_text, first_line, replace_newlines,
}
use ah.Inbox.{
  InboxItem, task_notification, is_monitor, same_session, monitor_merged, monitor_evicted,
  monitor_prior_failure, prior_failure, prior_eviction, Merged, supersede, merge_session, evict,
}

length-monitor_merged : length monitor_merged ≡ 78
unfolding monitor_merged
length-monitor_merged = refl

length-monitor_evicted : length monitor_evicted ≡ 75
unfolding monitor_evicted
length-monitor_evicted = refl

length-monitor_prior_failure : length monitor_prior_failure ≡ 28
unfolding monitor_prior_failure
length-monitor_prior_failure = refl

length-bracket : length (bytes "]\n") ≡ 2
unfolding bytes
length-bracket = refl

length-prior_failure : (status summary : Text) → length (prior_failure status summary) ≤ 542
unfolding prior_failure
length-prior_failure status summary = ground (
  arith,
  length-monitor_prior_failure,
  length-bracket,
  length-append (bounded_monitor_text (first_line summary) 512) (10 ∷ []),
  length-append monitor_prior_failure (bounded_monitor_text (replace_newlines summary) 512),
  length-append (monitor_prior_failure ++ bounded_monitor_text (replace_newlines summary) 512)
      (bytes "]\n"),
  length-bounded_monitor_text (first_line summary) 512,
  length-bounded_monitor_text (replace_newlines summary) 512,
)

length-prior_eviction : (summary : Text) → length (prior_eviction summary) ≤ 75
unfolding prior_eviction
length-prior_eviction summary = ground (arith, length-monitor_evicted)

-- Taking the session's notification out leaves the rest, and a short note.
pub supersede-items :
    (at : ℕ) (rest : List InboxItem) (item : InboxItem) → (supersede at rest item).items ≡ rest
unfolding supersede
supersede-items at rest (task_notification _ _ _ _ _) = refl
supersede-items at rest _ = refl

supersede-note :
    (at : ℕ) (rest : List InboxItem) (item : InboxItem) → length (supersede at rest item).note ≤ 695
unfolding supersede
supersede-note at rest (task_notification id source status summary first_at) = omega (
  arith,
  length-append (prior_failure status summary ++ prior_eviction summary) monitor_merged,
  length-append (prior_failure status summary) (prior_eviction summary),
  length-prior_failure status summary,
  length-prior_eviction summary,
  length-monitor_merged,
)
supersede-note at rest _ = omega arith

pub merge_session-note :
    (id at : ℕ) (items : List InboxItem) → length (merge_session id at items).note ≤ 695
unfolding merge_session
merge_session-note id at items = elim (remove_first-cases (same_session id) items) [
  | inl (e, c) ↦ rw (e, merge_session) (omega arith)
  | inr (y, ys, e, r) ↦ rw (e, merge_session) (supersede-note at ys y)
]

pub evict-note : (m : Merged) → length m.note ≤ 695 → length (evict m).note ≤ 770
unfolding evict
evict-note m h = elim (remove_first-cases is_monitor m.items) [
  | inl (e, c) ↦ rw (e, evict) (ground arith)
  | inr (y, ys, e, r) ↦
      rw (e, evict) (ground (arith, length-append m.note monitor_evicted, length-monitor_evicted))
]
