-- ===== src/Todos/Valid.antt =====
-- Which progress lists pass the check.
use ah.Base.{◌≡◌, ◌≤◌, refl, false, List, [], ◌∷◌, length, any, count, All, ◌↔◌, arith}
use ah.Watchdog.{is_blank}
use ah.Todos.{TodoItem, is_in_progress, max_todo_items, valid, validate_todos}

-- At most 30 items, none without content, at most one in progress.
pub record IsValid (items : List TodoItem) : Type 0 where
  pub few : length items ≤ 30
  pub filled : All (λ t. is_blank t.content ≡ false) items
  pub single : count (λ t. is_in_progress t.status) items ≤ 1

filled-any :
    (items : List TodoItem)
    → any (λ t. is_blank t.content) items ≡ false
    → All (λ t. is_blank t.content ≡ false) items
filled-any [] h = tt
filled-any (t ∷ items) h =
    let head : is_blank t.content ≡ false = ground (arith, h) in
    let rest : any (λ u. is_blank u.content) items ≡ false = ground (arith, h) in
    (head, filled-any items rest)

any-filled :
    (items : List TodoItem)
    → All (λ t. is_blank t.content ≡ false) items
    → any (λ t. is_blank t.content) items ≡ false
any-filled [] h = refl
any-filled (t ∷ items) h = rw (h.0, any-filled items h.1) refl

-- The check passes exactly the lists of at most 30 items, each with content that is not blank, of
-- which at most one is in progress.
pub validate_todos-IsValid : (items : List TodoItem) → validate_todos items ≡ valid ↔ IsValid items
unfolding validate_todos max_todo_items
validate_todos-IsValid items = (
  λ h.
      let clean : any (λ t. is_blank t.content) items ≡ false = ground (arith, h) in
      record {
        few = ground (arith, h);
        filled = filled-any items clean;
        single = ground (arith, h);
      },
  λ v. let clean = any-filled items v.filled in ground (arith, clean, v.few, v.single),
)
