-- ===== src/Memory.antt =====
-- Short term memory of src/domain/memory.rs: its entries, their groups, and what a compression
-- summarises and drains. The tokenizer of the crate `tiktoken_rs` is the argument `estimate_tokens`.

pub mod Groups
pub mod Drain
pub mod Summary
mod Tests
use ah.Base.{
  ℕ, suc, ◌+◌, ◌-◌, ◌%◌, ◌^◌, max, Bool, true, false, ◌&&◌, not, List, [], ◌∷◌, ◌++◌, Option, none,
  some, Text, bytes, ltb, leb, if◌then◌else◌, length, get_elem?, take, drop,
}

pub data EntryRole : Type 0 where
  user assistant summary archive : EntryRole

pub record ToolCall : Type 0 where
  pub id : Option Text
  pub tool_name : Text
  pub input : Text
  pub output : Text
  pub timestamp : ℕ

pub record EntryMetadata : Type 0 where
  pub tool_calls : List ToolCall
  pub resources : List Text
  pub reasoning : Option Text
  pub keywords : List Text

pub record MemoryEntry : Type 0 where
  pub role : EntryRole
  pub content : Text
  pub metadata : EntryMetadata

unfoldable pub is_empty {ℓ} : {A : Type ℓ} → List A → Bool
is_empty [] = true
is_empty (x ∷ xs) = false

unfoldable pub role_starts : EntryRole → List ToolCall → Bool
unfolding is_empty
role_starts user calls = true
role_starts assistant calls = not (is_empty calls)
role_starts summary calls = false
role_starts archive calls = false

-- `starts_new_group`.
unfoldable pub starts_new_group : MemoryEntry → Bool
unfolding role_starts
starts_new_group e = role_starts e.role e.metadata.tool_calls

-- The loop variables of `split_into_groups`: the groups closed so far, and the open one.
pub record Split : Type 0 where
  pub groups : List (List ℕ)
  pub current : List ℕ

unfoldable pub place : Split → ℕ → MemoryEntry → Split
unfolding is_empty
place s i e =
    if starts_new_group e && not (is_empty s.current)
    then record { groups = s.groups ++ s.current ∷ []; current = i ∷ [] }
    else record s { current = s.current ++ i ∷ [] }

pub walk : Split → ℕ → List MemoryEntry → Split
walk s i [] = s
walk s i (e ∷ entries) = walk (place s i e) (suc i) entries

unfoldable pub finish : Split → List (List ℕ)
unfolding is_empty
finish s = if is_empty s.current then s.groups else s.groups ++ s.current ∷ []

pub split_into_groups : List MemoryEntry → List (List ℕ)
split_into_groups entries = finish (walk (record { groups = []; current = [] }) 0 entries)

-- All groups but the last, which is still under way.
pub compressible_group_indices : List MemoryEntry → List (List ℕ)
compressible_group_indices entries =
    let groups = split_into_groups entries in
    if leb (length groups) 1 then [] else take (length groups - 1) groups

-- `{:?}` of a role.
unfoldable pub role_text : EntryRole → Text
unfolding bytes
role_text user = bytes "User"
role_text assistant = bytes "Assistant"
role_text summary = bytes "Summary"
role_text archive = bytes "Archive"

module _ (render_tool_calls : List ToolCall → Text) where
  -- One entry of the text to summarise.
  unfoldable pub entry_line : MemoryEntry → Text
  unfolding is_empty bytes
  entry_line e =
      let line = role_text e.role ++ bytes ": " ++ e.content in
      (if is_empty e.metadata.tool_calls
        then line
        else line ++ bytes "\n  " ++ render_tool_calls e.metadata.tool_calls)
      ++ 10 ∷ []

  -- The inner loop. `none` is the panic of an index out of range.
  pub group_text : List MemoryEntry → List ℕ → Text → Option Text
  group_text entries [] text = some text
  group_text entries (i ∷ group) text = elim (get_elem? entries i) [
    | none ↦ none
    | some e ↦ group_text entries group (text ++ entry_line e)
  ]

  pub groups_text : List MemoryEntry → List (List ℕ) → Text → Option Text
  groups_text entries [] text = some text
  groups_text entries (group ∷ groups) text = elim (group_text entries group text) [
    | none ↦ none
    | some text' ↦ groups_text entries groups text'
  ]

  unfoldable pub summary_header : Option Text → Text
  unfolding bytes
  summary_header none = []
  summary_header (some s) = bytes "[Previous context summary]\n" ++ s ++ bytes "\n\n"

  pub build_compress_text : List MemoryEntry → Option Text → Option Text
  build_compress_text entries prefix =
      groups_text entries (compressible_group_indices entries) (summary_header prefix)

-- `groups.iter().map(|g| g.len()).sum()`.
pub sum_lengths : List (List ℕ) → ℕ
sum_lengths [] = 0
sum_lengths (group ∷ groups) = length group + sum_lengths groups

-- `entries.drain(0..count)`, and the count that `drain_compressible_groups` returns.
pub drain_count : List MemoryEntry → ℕ
drain_count entries = sum_lengths (compressible_group_indices entries)

pub drain_entries : List MemoryEntry → List MemoryEntry
drain_entries entries = drop (drain_count entries) entries
