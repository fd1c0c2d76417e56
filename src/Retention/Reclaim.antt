-- ===== src/Retention/Reclaim.antt =====
-- Which tasks `terminal_task_retention_system` of src/systems/task_retention.rs reclaims.
use ah.Base.{
  ℕ, ◌+◌, ◌≤◌, ◌≡◌, refl, ap, ◌∙◌, Bool, true, false, ◌&&◌, ◌||◌, not, List, [], ◌∷◌, ◌++◌, map,
  Option, none, some, arith, inl, inr, Bool-cases, All, any, filter, ltb, ◌==◌, ◌↔◌, ==_iff,
}
use ah.Accounting.{is_some}
use ah.Retention.{
  Signed, forward, backward, is_within, World, root_task_id, contains_id, may_run, is_kept,
  ids_where, open_items, busy_ids, busy_roots, reclaim, parent_entry,
}
use ah.Task.{Task, is_terminal}

-- The tasks with the same root as `id`.
unfoldable pub tree : List Task → ℕ → List Task
tree tasks id = filter (λ t. root_task_id tasks t.id == root_task_id tasks id) tasks

-- At least the duration lies between the instants.
unfoldable pub HasPassed : Signed → ℕ → ℕ → Type 0
HasPassed (forward n) updated_at now = updated_at + n ≤ now
HasPassed (backward n) updated_at now = updated_at ≤ now + n

within-HasPassed :
    (d : Signed) (updated_at now : ℕ)
    → is_within now updated_at d ≡ false
    → HasPassed d updated_at now
unfolding HasPassed is_within
within-HasPassed (forward n) updated_at now h = ground (arith, h)
within-HasPassed (backward n) updated_at now h = ground (arith, h)

HasPassed-within :
    (d : Signed) (updated_at now : ℕ)
    → HasPassed d updated_at now
    → is_within now updated_at d ≡ false
unfolding HasPassed is_within
HasPassed-within (forward n) updated_at now h = ground (arith, h)
HasPassed-within (backward n) updated_at now h = ground (arith, h)

-- A task that needs nothing any more.
pub record IsQuiet (retention : Signed) (w : World) (t : Task) : Type 0 where
  pub ended : is_terminal t.status ≡ true
  pub past : HasPassed retention t.updated_at w.now
  pub all_delivered : w.pending_for t.id ≡ 0
  pub none_in_flight : w.in_flight t.id ≡ 0
  pub no_sessions : w.sessions t.id ≡ some 0

-- What is under way without being a state of the task: runs that are not recorded, work items that are
-- open, and tool requests.
unfoldable pub work_under_way : World → List Task → List ℕ
work_under_way w tasks =
    w.unrecorded_runs
    ++ filter (λ id. is_some (parent_entry tasks id)) (open_items w)
    ++ w.tool_requests

is_busy : Signed → World → Task → Bool
is_busy retention w t =
    is_kept retention w.now t
    || ltb 0 (w.pending_for t.id)
    || ltb 0 (w.in_flight t.id)
    || may_run (w.sessions t.id)

pub may_run_lem : (s : Option ℕ) → may_run s ≡ false → s ≡ some 0
unfolding may_run
may_run_lem none h = ground (arith, h)
may_run_lem (some n) h = let e : n ≡ 0 = ground (arith, h) in ap some e

is_busy-IsQuiet :
    (retention : Signed) (w : World) (t : Task)
    → is_busy retention w t ≡ false
    → IsQuiet retention w t
unfolding is_busy is_kept
is_busy-IsQuiet retention w t h = record {
  ended = ground (arith, h);
  past = within-HasPassed retention t.updated_at w.now (ground (arith, h));
  all_delivered = ground (arith, h);
  none_in_flight = ground (arith, h);
  no_sessions = may_run_lem (w.sessions t.id) (ground (arith, h));
}

IsQuiet-is_busy :
    (retention : Signed) (w : World) (t : Task)
    → IsQuiet retention w t
    → is_busy retention w t ≡ false
unfolding is_busy is_kept
IsQuiet-is_busy retention w t q =
    let e = q.ended in
    let p = HasPassed-within retention t.updated_at w.now q.past in
    let d = q.all_delivered in
    let f = q.none_in_flight in
    let s : may_run (w.sessions t.id) ≡ false = rw (q.no_sessions) (unfold may_run in refl) in
    ground (arith, e, p, d, f, s)

pub any-append {ℓ} :
    {A : Type ℓ} (p : A → Bool) (xs ys : List A) → any p (xs ++ ys) ≡ (any p xs || any p ys)
any-append p [] ys = refl
any-append p (x ∷ xs) ys = ground (arith, any-append p xs ys)

pub any-or {ℓ} :
    {A : Type ℓ} (p q : A → Bool) (xs : List A) → any (λ x. p x || q x) xs ≡ (any p xs || any q xs)
any-or p q [] = refl
any-or p q (x ∷ xs) = ground (arith, any-or p q xs)

-- The roots of the tasks with a property, and the property on a tree.
pub contains_id-ids_where :
    (p : Task → Bool) (root : ℕ → ℕ) (r : ℕ) (tasks : List Task)
    → contains_id (map root (ids_where p tasks)) r ≡ any p (filter (λ t. root t.id == r) tasks)
unfolding contains_id ids_where
contains_id-ids_where p root r [] = refl
contains_id-ids_where p root r (t ∷ tasks) = ground (arith, contains_id-ids_where p root r tasks)

contains_id-filter :
    (p : ℕ → Bool) (xs : List ℕ) (id : ℕ)
    → contains_id (filter p xs) id ≡ (contains_id xs id && p id)
unfolding contains_id
contains_id-filter p [] id = refl
contains_id-filter p (x ∷ xs) id = elim (Bool-cases (x == id)) [
  | inl e ↦
      let same : x ≡ id = (==_iff x id).0 e in
      elim (Bool-cases (p id)) [
        | inl f ↦ rw (same, f) (ground arith)
        | inr f ↦ rw (same, f) (contains_id-filter p xs id ∙ rw f (ground arith))
      ]
  | inr e ↦ elim (Bool-cases (p x)) [
    | inl f ↦ rw (f, e) (contains_id-filter p xs id)
    | inr f ↦ rw (f, e) (contains_id-filter p xs id)
  ]
]

contains_id-append :
    (xs ys : List ℕ) (id : ℕ) → contains_id (xs ++ ys) id ≡ (contains_id xs id || contains_id ys id)
unfolding contains_id
contains_id-append xs ys id = any-append (λ i. i == id) xs ys

pub contains_id-map-append :
    (f : ℕ → ℕ) (xs ys : List ℕ) (id : ℕ)
    → contains_id (map f (xs ++ ys)) id ≡ (contains_id (map f xs) id || contains_id (map f ys) id)
unfolding contains_id
contains_id-map-append f [] ys id = refl
contains_id-map-append f (x ∷ xs) ys id = ground (arith, contains_id-map-append f xs ys id)

any-All :
    (retention : Signed) (w : World) (tasks : List Task)
    → any (is_busy retention w) tasks ≡ false
    → All (IsQuiet retention w) tasks
any-All retention w [] h = tt
any-All retention w (t ∷ tasks) h = (
  is_busy-IsQuiet retention w t (ground (arith, h)),
  any-All retention w tasks (ground (arith, h)),
)

All-any :
    (retention : Signed) (w : World) (tasks : List Task)
    → All (IsQuiet retention w) tasks
    → any (is_busy retention w) tasks ≡ false
All-any retention w [] h = refl
All-any retention w (t ∷ tasks) (q, qs) =
    let here = IsQuiet-is_busy retention w t q in
    let rest = All-any retention w tasks qs in ground (arith, here, rest)

or_shuffle :
    (a b c d e f g : Bool) → (a || b || c || d || e || f || g) ≡ (a || c || f || g || (b || d || e))
or_shuffle a b c d e f g = ground arith

-- The root of a tree is busy when one of its tasks is, or when work is under way for one.
busy_roots-tree :
    (retention : Signed) (w : World) (tasks : List Task) (id : ℕ)
    → contains_id (busy_roots retention w tasks) (root_task_id tasks id) ≡ (
        any (is_busy retention w) (tree tasks id)
        || contains_id (map (root_task_id tasks) (work_under_way w tasks)) (root_task_id tasks id))
unfolding busy_roots busy_ids tree work_under_way is_busy
busy_roots-tree retention w tasks id =
    let here = filter (λ t. root_task_id tasks t.id == root_task_id tasks id) tasks in
    let under : List ℕ → Bool =
      λ ids. contains_id (map (root_task_id tasks) ids) (root_task_id tasks id) in
    simp (contains_id-map-append, contains_id-ids_where, any-or)
      (or_shuffle (any (is_kept retention w.now) here) (under w.unrecorded_runs)
        (any (λ t. ltb 0 (w.pending_for t.id)) here)
        (under (filter (λ i. is_some (parent_entry tasks i)) (open_items w)))
        (under w.tool_requests) (any (λ t. ltb 0 (w.in_flight t.id)) here)
        (any (λ t. may_run (w.sessions t.id)) here))

-- A sweep reclaims a task exactly if every task with the same root is terminal, past the retention,
-- without deliveries, calls or sessions under way, and no unrecorded run, open work item of a task or
-- tool request has that root.
pub reclaim-IsQuiet :
    (retention : Signed) (w : World) (tasks : List Task) (id : ℕ)
    → (contains_id (reclaim retention w tasks) id ≡ true) ↔ (
        (contains_id (map (λ t. t.id) tasks) id ≡ true)
        × All (IsQuiet retention w) (tree tasks id)
        × (contains_id (map (root_task_id tasks) (work_under_way w tasks)) (root_task_id tasks id)
            ≡ false))
reclaim-IsQuiet retention w tasks id =
    let busy = any (is_busy retention w) (tree tasks id) in
    let work =
      contains_id (map (root_task_id tasks) (work_under_way w tasks)) (root_task_id tasks id) in
    let e : contains_id (reclaim retention w tasks) id
        ≡ (contains_id (map (λ t. t.id) tasks) id && not (busy || work)) =
      unfold reclaim in
      contains_id-filter _ (map (λ t. t.id) tasks) id
      ∙ ap (λ b. contains_id (map (λ t. t.id) tasks) id && not b)
          (busy_roots-tree retention w tasks id) in
    (
      λ h. (
        ground (arith, e, h),
        any-All retention w (tree tasks id) (ground (arith, e, h)),
        ground (arith, e, h),
      ),
      λ (there, quiet, none_left).
          let q = All-any retention w (tree tasks id) quiet in
          ground (arith, e, there, q, none_left),
    )
