-- ===== src/Memory/Summary.antt =====
-- The text that a compression hands to the summariser.
use ah.Base.{
  ℕ, zero, suc, ◌+◌, ◌≤◌, ◌<◌, ◌≡◌, refl, sym, ap, ◌∙◌, List, [], ◌∷◌, ◌++◌, append-nil,
  append_assoc, arith, Text, Option, none, some, length, take, drop, get_elem?, concat, span, inl,
  inr, Option-cases,
}
use ah.Memory.{
  MemoryEntry, ToolCall, compressible_group_indices, drain_count, entry_line, group_text,
  groups_text, summary_header, build_compress_text,
}
use ah.Memory.Groups.{walked-Tiles, compressible-walked}
use ah.Memory.Drain.{drain_count-walked}

-- In range, an index finds the entry behind the first so many.
get_elem?-drop :
    (entries : List MemoryEntry) (a : ℕ)
    → a < length entries
    → (e : MemoryEntry) × (get_elem? entries a ≡ some e)
      × (drop a entries ≡ e ∷ drop (suc a) entries)
get_elem?-drop [] a h = absurd (omega arith)
get_elem?-drop (x ∷ entries) zero h = (x, refl, refl)
get_elem?-drop (x ∷ entries) (suc a) h = get_elem?-drop entries a (omega arith)

abbrev and_then : Option Text → (Text → Option Text) → Option Text
and_then none f = none
and_then (some text) f = f text

module _ (render : List ToolCall → Text) where
  -- The entries' lines one after another.
  abbrev pub lines : List MemoryEntry → Text
  lines [] = []
  lines (e ∷ entries) = entry_line render e ++ lines entries

  group_text-append :
      (entries : List MemoryEntry) (xs ys : List ℕ) (text : Text)
      → group_text render entries (xs ++ ys) text
        ≡ and_then (group_text render entries xs text) (group_text render entries ys)
  unfolding group_text
  group_text-append entries [] ys text = refl
  group_text-append entries (i ∷ xs) ys text = elim (Option-cases (get_elem? entries i)) [
    | inl e ↦ rw (e, group_text) refl
    | inr (x, e) ↦
        rw (e, group_text) (group_text-append entries xs ys (text ++ entry_line render x))
  ]

  group_text-span :
      (entries : List MemoryEntry) (a n : ℕ) (text : Text)
      → a + n ≤ length entries
      → group_text render entries (span a n) text ≡ some (text ++ lines (take n (drop a entries)))
  unfolding group_text
  group_text-span entries a zero text h = ap some (sym (append-nil text))
  group_text-span entries a (suc n) text h =
      let (e, got, rest) = get_elem?-drop entries a (omega arith) in
      rw (got, group_text, rest)
        (group_text-span entries (suc a) n (text ++ entry_line render e) (omega arith)
          ∙ ap some (append_assoc text _ _))

  groups_text-concat :
      (entries : List MemoryEntry) (groups : List (List ℕ)) (text : Text)
      → groups_text render entries groups text ≡ group_text render entries (concat groups) text
  unfolding groups_text
  groups_text-concat entries [] text = unfold group_text in refl
  groups_text-concat entries (group ∷ groups) text =
      let split = group_text-append entries group (concat groups) text in
      elim (Option-cases (group_text render entries group text)) [
        | inl e ↦
            rw (e, groups_text)
              (sym (split ∙ ap (λ o. and_then o (group_text render entries (concat groups))) e))
        | inr (text', e) ↦
            rw (e, groups_text)
              (groups_text-concat entries groups text'
                ∙ sym (split ∙ ap (λ o. and_then o (group_text render entries (concat groups))) e))
      ]

  -- The text to summarise is the previous summary's header, then a line for each entry that the drain
  -- will remove, in order; no index is out of range.
  pub build_compress_text-drained :
      (entries : List MemoryEntry) (prefix : Option Text)
      → build_compress_text render entries prefix
        ≡ some (summary_header render prefix ++ lines (take (drain_count entries) entries))
  unfolding build_compress_text
  build_compress_text-drained entries prefix =
      let t = walked-Tiles entries in
      let n = drain_count entries in
      let counted = drain_count-walked entries in
      groups_text-concat entries (compressible_group_indices entries) (summary_header render prefix)
      ∙ ap (λ g. group_text render entries g (summary_header render prefix))
          (ap concat (compressible-walked entries) ∙ t.closed ∙ ap (span 0) (sym counted))
      ∙ group_text-span entries 0 n (summary_header render prefix) (omega (arith, counted, t.reach))
