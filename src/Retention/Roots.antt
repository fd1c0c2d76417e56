-- ===== src/Retention/Roots.antt =====
-- `root_task_id` of src/systems/task_retention.rs against the chain of parents, as the tasks have it.
use ah.Accounting.{is_some}
use ah.Base.{
  ℕ, zero, suc, ◌≡◌, refl, sym, ◌∙◌, Bool, true, false, List, [], ◌∷◌, none, some, ◌==◌, arith,
  Bool-cases, Option-cases, inl, inr, any,
}
use ah.Retention.{parent_entry, parent_task, climb, root_task_id, max_task_depth}
use ah.Task.{Task}

-- Whether one of the tasks has this id.
unfoldable pub is_task : List Task → ℕ → Bool
is_task tasks id = any (λ t. t.id == id) tasks

-- The last of the tasks with this id.
pub data LastTask : List Task → ℕ → Task → Type 0 where
  last_here :
      {t : Task} {tasks : List Task} {id : ℕ}
      → (t.id == id) ≡ true
      → is_task tasks id ≡ false
      → LastTask (t ∷ tasks) id t
  last_later :
      {t u : Task} {tasks : List Task} {id : ℕ} → LastTask tasks id u → LastTask (t ∷ tasks) id u

-- The task says that it has this parent, and the parent is there.
pub data Parent (tasks : List Task) (id parent : ℕ) : Type 0 where
  child_of :
      (t : Task)
      → LastTask tasks id t
      → t.parent_task_id ≡ some parent
      → is_task tasks parent ≡ true
      → Parent tasks id parent

-- The task has no parent, or one that is gone.
pub data IsRoot (tasks : List Task) (id : ℕ) : Type 0 where
  no_parent : (t : Task) → LastTask tasks id t → t.parent_task_id ≡ none → IsRoot tasks id
  parent_gone :
      (t : Task) (parent : ℕ)
      → LastTask tasks id t
      → t.parent_task_id ≡ some parent
      → is_task tasks parent ≡ false
      → IsRoot tasks id

-- `top` is at the end of the chain of parents of `id`, at most `n` parents up.
pub data IsTop (tasks : List Task) : ℕ → ℕ → ℕ → Type 0 where
  here : {n id : ℕ} → IsRoot tasks id → IsTop tasks n id id
  up :
      {n id parent top : ℕ}
      → Parent tasks id parent
      → IsTop tasks n parent top
      → IsTop tasks (suc n) id top

parent_entry-is_task :
    (tasks : List Task) (id : ℕ) → is_some (parent_entry tasks id) ≡ is_task tasks id
unfolding parent_entry is_task is_some
parent_entry-is_task [] id = refl
parent_entry-is_task (t ∷ tasks) id = ground (arith, parent_entry-is_task tasks id)

parent_entry-none :
    (tasks : List Task) (id : ℕ) → is_task tasks id ≡ false → parent_entry tasks id ≡ none
unfolding is_some
parent_entry-none tasks id h =
    let e : is_some (parent_entry tasks id) ≡ false = parent_entry-is_task tasks id ∙ h in
    ground (arith, e)

parent_entry-LastTask :
    {tasks : List Task} {id : ℕ} {t : Task}
    → LastTask tasks id t
    → parent_entry tasks id ≡ some t.parent_task_id
unfolding parent_entry
parent_entry-LastTask {tasks = t ∷ tasks} {id} (last_here e n) =
    rw (parent_entry, parent_entry-none tasks id n, e) refl
parent_entry-LastTask (last_later l) = rw (parent_entry, parent_entry-LastTask l) refl

parent_task-Parent :
    {tasks : List Task} {id parent : ℕ}
    → Parent tasks id parent
    → parent_task tasks id ≡ some parent
unfolding parent_task
parent_task-Parent {tasks} {id} {parent} (child_of t l p h) =
    rw (parent_task, parent_entry-LastTask l, p, parent_entry-is_task tasks parent, h) refl

parent_task-IsRoot : {tasks : List Task} {id : ℕ} → IsRoot tasks id → parent_task tasks id ≡ none
unfolding parent_task
parent_task-IsRoot (no_parent t l p) = rw (parent_task, parent_entry-LastTask l, p) refl
parent_task-IsRoot {tasks} (parent_gone t parent l p h) =
    rw (parent_task, parent_entry-LastTask l, p, parent_entry-is_task tasks parent, h) refl

climb-IsTop : {tasks : List Task} {n id top : ℕ} → IsTop tasks n id top → climb tasks n id ≡ top
unfolding climb
climb-IsTop {tasks} {n = zero} (here r) = refl
climb-IsTop {tasks} {n = suc n} (here r) = rw (climb, parent_task-IsRoot r) refl
climb-IsTop {tasks} {n = suc n} (up p t) = rw (climb, parent_task-Parent p) (climb-IsTop t)

IsTop-wider : {tasks : List Task} {n id top : ℕ} → IsTop tasks n id top → IsTop tasks (suc n) id top
IsTop-wider (here r) = here r
IsTop-wider (up p t) = up p (IsTop-wider t)

climb-is_task :
    (tasks : List Task) (n id : ℕ)
    → is_task tasks id ≡ true
    → is_task tasks (climb tasks n id) ≡ true
unfolding climb parent_task
climb-is_task tasks zero id h = h
climb-is_task tasks (suc n) id h = elim (Option-cases (parent_entry tasks id)) [
  | inl e ↦ rw (climb, parent_task, e) h
  | inr (o, e) ↦ elim (Option-cases o) [
    | inl p ↦ rw (climb, parent_task, e, p) h
    | inr (parent, p) ↦ elim (Bool-cases (is_some (parent_entry tasks parent))) [
      | inl i ↦
          rw (climb, parent_task, e, p, i)
            (climb-is_task tasks n parent (sym (parent_entry-is_task tasks parent) ∙ i))
      | inr i ↦ rw (climb, parent_task, e, p, i) h
    ]
  ]
]

-- However long the chains of parents are, cyclic ones included, the root of a task is a task; and if
-- the chain of a task ends within 63 parents, at a task without a parent or whose parent is gone, then
-- this end is the root of the task and of each task whose parent it is.
pub root_task_id-IsTop :
    (tasks : List Task) (id parent top other : ℕ)
    → Parent tasks id parent
    → IsTop tasks 63 parent top
    → is_task tasks other ≡ true
    → (root_task_id tasks parent ≡ top)
      × (root_task_id tasks id ≡ top)
      × (is_task tasks (root_task_id tasks other) ≡ true)
unfolding root_task_id max_task_depth
root_task_id-IsTop tasks id parent top other p t o =
    (climb-IsTop (IsTop-wider t), climb-IsTop (up p t), climb-is_task tasks 64 other o)
