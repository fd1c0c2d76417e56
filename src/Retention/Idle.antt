-- ===== src/Retention/Idle.antt =====
-- Which conversations `conversation_idle_system` of src/systems/task_retention.rs finishes.
use ah.Base.{
  ℕ, ◌≡◌, refl, sym, Bool, true, false, ◌&&◌, ◌||◌, not, List, [], ◌∷◌, ◌++◌, map, Option, some,
  arith, Option-cases, none, ap, inl, inr, Bool-cases, All, any, filter, ◌==◌, ==_iff, subst,
  false≢true,
}
use ah.Accounting.{is_some}
use ah.Retention.{
  World, root_task_id, contains_id, may_run, ids_where, open_items, is_active, active_ids, is_idle,
  has_sessions, finish_idle, idle_conversations, Signed, as_i64, is_early,
}
use ah.Retention.Reclaim.{tree, any-or, contains_id-ids_where, contains_id-map-append, may_run_lem}
use ah.Task.{Task, is_terminal}

-- A task that nothing goes on for.
pub record IsInactive (w : World) (t : Task) : Type 0 where
  pub no_open_child : (is_some t.parent_task_id && not (is_terminal t.status)) ≡ false
  pub no_monitor : w.has_pending_for_task t.id ≡ false
  pub empty_inbox : w.inbox_is_empty t.id ≡ true
  pub no_jobs : w.has_jobs t.id ≡ false
  pub none_in_flight : w.in_flight t.id ≡ 0
  pub no_sessions : w.sessions t.id ≡ some 0

-- What is queued for tasks: requests, deliveries to inboxes and open work items.
unfoldable pub queued : World → List ℕ
queued w = w.tool_requests ++ w.queued_tools ++ w.queued_llm ++ w.deliveries ++ open_items w

IsInactive-is_active :
    (w : World) (t : Task) → (is_active w t || may_run (w.sessions t.id)) ≡ false → IsInactive w t
unfolding is_active
IsInactive-is_active w t h = record {
  no_open_child = ground (arith, h);
  no_monitor = ground (arith, h);
  empty_inbox = ground (arith, h);
  no_jobs = ground (arith, h);
  none_in_flight = ground (arith, h);
  no_sessions = may_run_lem (w.sessions t.id) (ground (arith, h));
}

any-All :
    (w : World) (tasks : List Task)
    → any (λ t. is_active w t || may_run (w.sessions t.id)) tasks ≡ false
    → All (IsInactive w) tasks
any-All w [] h = tt
any-All w (t ∷ tasks) h =
    (IsInactive-is_active w t (ground (arith, h)), any-All w tasks (ground (arith, h)))

-- What a property of tasks asks of the id alone holds for every id that is listed.
contains_id-where :
    (p : Task → Bool) (g : ℕ → Bool) (tasks : List Task) (id : ℕ)
    → ((t : Task) → p t ≡ true → g t.id ≡ true)
    → contains_id (ids_where p tasks) id ≡ true
    → g id ≡ true
unfolding contains_id ids_where
contains_id-where p g [] id f h = ground (arith, h)
contains_id-where p g (t ∷ tasks) id f h = elim (Bool-cases (p t)) [
  | inr e ↦ contains_id-where p g tasks id f (rw e at h)
  | inl e ↦ elim (Bool-cases (t.id == id)) [
    | inl same ↦ subst (λ i. g i ≡ true) ((==_iff t.id id).0 same) (f t e)
    | inr other ↦ contains_id-where p g tasks id f (rw (e, other) at h)
  ]
]

any-filter-and :
    (p q : Task → Bool) (tasks : List Task) → any (λ t. p t && q t) tasks ≡ any q (filter p tasks)
any-filter-and p q [] = refl
any-filter-and p q (t ∷ tasks) = ground (arith, any-filter-and p q tasks)

tree_tests : World → List Task → ℕ → Bool
tree_tests w tasks id =
    not (contains_id (map (root_task_id tasks) (active_ids w tasks)) id)
    && not (has_sessions w tasks id)

idle_conversations-tests :
    (idle : Signed) (w : World) (tasks : List Task) (id : ℕ)
    → contains_id (idle_conversations idle w tasks) id ≡ true
    → tree_tests w tasks id ≡ true
unfolding idle_conversations tree_tests
idle_conversations-tests idle w tasks id h =
    contains_id-where (λ t. is_idle idle w tasks t && not (has_sessions w tasks t.id))
      (tree_tests w tasks) tasks id (λ t k. unfold is_idle in ground (arith, k)) h

-- The ids that a sweep finishes, if it does not panic.
unfoldable finished_ids : Option (List ℕ) → List ℕ
finished_ids none = []
finished_ids (some ids) = ids

finish_idle-tests :
    (seconds : Signed → Option Signed) (idle_secs : ℕ) (w : World) (last_sweep : Option ℕ)
    (tasks : List Task) (id : ℕ)
    → contains_id (finished_ids (finish_idle seconds idle_secs w last_sweep tasks)) id ≡ true
    → tree_tests w tasks id ≡ true
unfolding finish_idle finished_ids
finish_idle-tests seconds idle_secs w last_sweep tasks id h =
    elim (Bool-cases ((idle_secs == 0) || is_early last_sweep w.now)) [
      | inl e ↦ absurd (false≢true (unfold contains_id in rw e at h))
      | inr e ↦ elim (Option-cases (seconds (as_i64 idle_secs))) [
        | inl p ↦ absurd (false≢true (unfold contains_id in rw (e, p) at h))
        | inr (idle, p) ↦ idle_conversations-tests idle w tasks id (rw (e, p) at h)
      ]
    ]

or_regroup : (a b c d e f : Bool) → (a || b || c || d || e || f) ≡ (a || (b || c || d || e || f))
or_regroup a b c d e f = ground arith

active_ids-tree :
    (w : World) (tasks : List Task) (id : ℕ)
    → contains_id (map (root_task_id tasks) (active_ids w tasks)) (root_task_id tasks id) ≡ (
        any (is_active w) (tree tasks id)
        || contains_id (map (root_task_id tasks) (queued w)) (root_task_id tasks id))
unfolding active_ids queued tree
active_ids-tree w tasks id =
    let here = filter (λ t. root_task_id tasks t.id == root_task_id tasks id) tasks in
    let under : List ℕ → Bool =
      λ ids. contains_id (map (root_task_id tasks) ids) (root_task_id tasks id) in
    simp (contains_id-map-append, contains_id-ids_where)
      (or_regroup (any (is_active w) here) (under w.tool_requests) (under w.queued_tools)
        (under w.queued_llm) (under w.deliveries) (under (open_items w)))

-- When a conversation at the root of its tree is finished for being idle, nothing goes on for any task
-- of the tree: no child is open, no monitor has something to tell, every inbox is empty, there are no
-- jobs, no calls under way and no sessions; and nothing is queued for a task of the tree.
pub finish_idle-IsInactive :
    (seconds : Signed → Option Signed) (idle_secs : ℕ) (w : World) (last_sweep : Option ℕ)
    (tasks : List Task) (gone : List ℕ) (id : ℕ)
    → finish_idle seconds idle_secs w last_sweep tasks ≡ some gone
    → contains_id gone id ≡ true
    → root_task_id tasks id ≡ id
    → All (IsInactive w) (tree tasks id)
      × (contains_id (map (root_task_id tasks) (queued w)) id ≡ false)
finish_idle-IsInactive seconds idle_secs w last_sweep tasks gone id f h top =
    let listed =
      subst (λ ids. contains_id ids id ≡ true) (sym (ap finished_ids f))
        (unfold finished_ids in h) in
    let root = root_task_id tasks id in
    let tests : tree_tests w tasks root ≡ true =
      subst (λ i. tree_tests w tasks i ≡ true) (sym top)
        (finish_idle-tests seconds idle_secs w last_sweep tasks id listed) in
    let active = active_ids-tree w tasks id in
    let sessions : has_sessions w tasks root
        ≡ any (λ t. may_run (w.sessions t.id)) (tree tasks id) =
      unfold has_sessions tree in any-filter-and _ (λ t. may_run (w.sessions t.id)) tasks in
    let both = any-or (is_active w) (λ t. may_run (w.sessions t.id)) (tree tasks id) in
    (
      any-All w (tree tasks id)
          (unfold tree_tests in ground (arith, tests, active, sessions, both)),
      subst (λ i. contains_id (map (root_task_id tasks) (queued w)) i ≡ false) top
          (unfold tree_tests in ground (arith, tests, active)),
    )
