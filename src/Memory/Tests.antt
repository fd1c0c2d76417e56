-- ===== src/Memory/Tests.antt =====
-- Concrete conversations.
use ah.Base.{◌≡◌, refl, List, [], ◌∷◌, ◌++◌, none, some, Text, take, length, concat, span, All}
use ah.Memory.{
  EntryRole, ToolCall, MemoryEntry, split_into_groups, walk, place, finish, starts_new_group,
  drain_count, drain_entries, summary_header, build_compress_text,
}
use ah.Memory.Groups.{NonEmpty, concat-split_into_groups}
use ah.Memory.Drain.{last_group, drain_entries-last_group}
use ah.Memory.Summary.{lines, build_compress_text-drained}

abbrev call : ToolCall
call = record { id = none; tool_name = []; input = []; output = []; timestamp = 0 }

abbrev entry : EntryRole → List ToolCall → MemoryEntry
entry role calls = record {
  role = role;
  content = [];
  metadata = record { tool_calls = calls; resources = []; reasoning = none; keywords = [] };
}

-- A question, a tool round, a question and its answer.
abbrev talk : List MemoryEntry
talk =
    entry EntryRole.user []
    ∷ entry EntryRole.assistant (call ∷ [])
    ∷ entry EntryRole.user []
    ∷ entry EntryRole.assistant []
    ∷ []

talk_groups : split_into_groups talk ≡ (0 ∷ []) ∷ (1 ∷ []) ∷ (2 ∷ 3 ∷ []) ∷ []
unfolding split_into_groups walk place finish starts_new_group
talk_groups = refl

concat-split_into_groups_example :
    (concat (split_into_groups talk) ≡ span 0 (length talk)) × All NonEmpty (split_into_groups talk)
concat-split_into_groups_example = concat-split_into_groups talk

drain_entries-last_group_example : drain_entries talk ≡ last_group talk
drain_entries-last_group_example = drain_entries-last_group talk

abbrev render_nothing : List ToolCall → Text
render_nothing calls = []

build_compress_text-drained_example :
    build_compress_text render_nothing talk none
    ≡ some
        (summary_header render_nothing none ++ lines render_nothing (take (drain_count talk) talk))
build_compress_text-drained_example = build_compress_text-drained render_nothing talk none
