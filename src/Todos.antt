-- ===== src/Todos.antt =====
-- The progress list of a task, src/domain/loop_control.rs: its check and its text.
mod Valid
mod Tests
use ah.Base.{
  ℕ, ◌≡◌, Bool, true, false, List, [], ◌∷◌, ◌++◌, map, Text, bytes, ltb, if◌then◌else◌, length, any,
  count,
}
use ah.Watchdog.{is_blank}

pub data TodoStatus : Type 0 where
  pending in_progress completed : TodoStatus

unfoldable pub marker : TodoStatus → Text
unfolding bytes
marker pending = bytes "○"
marker in_progress = bytes "▶"
marker completed = bytes "✓"

pub record TodoItem : Type 0 where
  pub content : Text
  pub status : TodoStatus

pub max_todo_items : ℕ
max_todo_items = 30

abbrev pub is_in_progress : TodoStatus → Bool
is_in_progress pending = false
is_in_progress in_progress = true
is_in_progress completed = false

-- The messages of `validate_todos`.
pub data TodoError : Type 0 where
  too_many blank_content two_in_progress : TodoError

pub data Validated : Type 0 where
  valid : Validated
  invalid : TodoError → Validated

pub validate_todos : List TodoItem → Validated
validate_todos items =
    if ltb max_todo_items (length items)
    then invalid too_many
    else if any (λ t. is_blank t.content) items
    then invalid blank_content
    else if ltb 1 (count (λ t. is_in_progress t.status) items)
    then invalid two_in_progress
    else valid

-- `join("\n")`.
pub join_lines : List Text → Text
join_lines [] = []
join_lines (line ∷ []) = line
join_lines (line ∷ next ∷ lines) = line ++ 10 ∷ join_lines (next ∷ lines)

pub render_todos : List TodoItem → Text
render_todos items = join_lines (map (λ t. marker t.status ++ 32 ∷ t.content) items)
