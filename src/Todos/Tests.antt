-- ===== src/Todos/Tests.antt =====
-- Progress lists that pass the check and that do not.
use ah.Base.{◌≡◌, refl, List, [], ◌∷◌, bytes}
use ah.Watchdog.{is_blank, blank_from, blank_step}
use ah.Todos.{
  pending, in_progress, completed, marker, TodoItem, max_todo_items, blank_content, two_in_progress,
  invalid, validate_todos, join_lines, render_todos,
}

abbrev plan : List TodoItem
unfolding bytes
plan =
    record { content = bytes "read"; status = completed }
    ∷ record { content = bytes "write"; status = in_progress }
    ∷ []

plan_text : render_todos plan ≡ bytes "✓ read\n▶ write"
unfolding render_todos join_lines marker plan bytes
plan_text = refl

double :
    validate_todos (record { content = bytes "test"; status = in_progress } ∷ plan)
    ≡ invalid two_in_progress
unfolding validate_todos max_todo_items is_blank blank_from ah.Watchdog.is_between blank_step plan
    bytes
double = refl

blank :
    validate_todos (record { content = bytes " \n"; status = pending } ∷ plan)
    ≡ invalid blank_content
unfolding validate_todos max_todo_items is_blank blank_from ah.Watchdog.is_between blank_step plan
    bytes
blank = refl
