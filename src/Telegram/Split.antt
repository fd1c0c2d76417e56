-- ===== src/Telegram/Split.antt =====
-- `split_text`, `split_html_safely` and the searches of src/channels/telegram.rs, on the bytes of a
-- `str`. Slicing at an index that is no character boundary panics, which the outcome shows.
use ah.Base.{
  ℕ, zero, suc, ◌+◌, ◌-◌, min, Bool, true, false, ◌&&◌, ◌||◌, not, List, [], ◌∷◌, Option, none,
  some, Text, length, take, drop, starts_with, ltb, leb, ◌==◌, if◌then◌else◌,
}
use ah.Inbox.Excerpt.{is_char_boundary, floor_boundary}
use ah.Telegram.{in_tag_after}

-- How a run of the code ends: with a value, in a panic, or not within the fuel.
pub data Outcome {ℓ} (A : Type ℓ) : Type ℓ where
  returned : A → Outcome A
  panicked : Outcome A
  unfinished : Outcome A

-- `&text[start..end]`
unfoldable pub byte_slice : Text → ℕ → ℕ → Outcome Text
byte_slice text start end =
    if leb start end && is_char_boundary text start && is_char_boundary text end
    then returned (take (end - start) (drop start text))
    else panicked

-- A chunk, and then the rest of the loop.
unfoldable pub push_chunk : Outcome Text → Outcome (List Text) → Outcome (List Text)
push_chunk (returned chunk) (returned chunks) = returned (chunk ∷ chunks)
push_chunk (returned chunk) panicked = panicked
push_chunk (returned chunk) unfinished = unfinished
push_chunk panicked rest = panicked
push_chunk unfinished rest = unfinished

-- The loop of `split_text` from `start` on.
unfoldable pub split_text_from : ℕ → Text → ℕ → ℕ → Outcome (List Text)
split_text_from zero text max_len start = unfinished
split_text_from (suc f) text max_len start = elim (ltb start (length text)) [
  | false ↦ returned []
  | true ↦
      let end = floor_boundary text (min (start + max_len) (length text)) in
      push_chunk (byte_slice text start end) (split_text_from f text max_len end)
]

unfoldable pub split_text : Text → ℕ → Outcome (List Text)
split_text text max_len =
    if leb (length text) max_len
    then returned (text ∷ [])
    else split_text_from (length text + 1) text max_len 0

-- The flag `in_tag` behind a text.
unfoldable pub in_tag_behind : Bool → Text → Bool
in_tag_behind in_tag [] = in_tag
in_tag_behind in_tag (b ∷ t) = in_tag_behind (in_tag_after in_tag b) t

-- The bytes of `<` and `>` occur in no other character. Every call passes a character boundary.
unfoldable pub is_outside_tag : Text → ℕ → Bool
is_outside_tag html idx = not (in_tag_behind false (take idx html))

-- `match_indices`: the places of a pattern that do not overlap, `index` being the place of the text;
-- `skip` bytes of the last match are still to be passed.
unfoldable pub match_indices : Text → ℕ → ℕ → Text → List ℕ
match_indices pattern' skip index [] = []
match_indices pattern' (suc skip) index (b ∷ t) = match_indices pattern' skip (suc index) t
match_indices pattern' zero index (b ∷ t) =
    let found = starts_with (b ∷ t) pattern' in
    let rest = match_indices pattern' (if found then length pattern' - 1 else 0) (suc index) t in
    if found then index ∷ rest else rest

-- The loops over the matches: the last cut in range and outside every tag.
unfoldable pub last_outside : Text → ℕ → ℕ → Option ℕ → List ℕ → Option ℕ
last_outside html target_end offset best [] = best
last_outside html target_end offset best (idx ∷ idxs) =
    last_outside html target_end offset
      (if leb (idx + offset) target_end && is_outside_tag html (idx + offset)
        then some (idx + offset)
        else best)
      idxs

-- A search in a slice, which panics where the slice does.
unfoldable pub search_part : (Text → Option ℕ) → Outcome Text → Outcome (Option ℕ)
search_part look (returned part) = returned (look part)
search_part look panicked = panicked
search_part look unfinished = unfinished

unfoldable pub find_best_split : Text → ℕ → ℕ → Text → ℕ → Outcome (Option ℕ)
find_best_split html start target_end pattern' offset =
    search_part
      (λ part. last_outside html target_end offset none (match_indices pattern' 0 start part))
      (byte_slice html start target_end)

-- The places of `.`, `!` and `?`, each of one byte.
unfoldable pub sentence_ends : ℕ → Text → List ℕ
sentence_ends index [] = []
sentence_ends index (b ∷ t) =
    let rest = sentence_ends (suc index) t in
    if b == b'.' || b == b'!' || b == b'?' then index ∷ rest else rest

unfoldable pub find_sentence_split : Text → ℕ → ℕ → Outcome (Option ℕ)
find_sentence_split html start target_end =
    search_part (λ part. last_outside html target_end 1 none (sentence_ends start part))
      (byte_slice html start target_end)

-- `for idx in (start + 1..=start + n).rev()`
unfoldable pub last_cut : Text → ℕ → ℕ → ℕ
last_cut html start zero = start
last_cut html start (suc n) =
    let rest = last_cut html start n in
    if is_char_boundary html (start + suc n) && is_outside_tag html (start + suc n)
    then start + suc n
    else rest

-- `if let Some(idx) = ... { return idx; }`, and what follows it.
unfoldable pub or_return : Outcome (Option ℕ) → Outcome ℕ → Outcome ℕ
or_return (returned none) next = next
or_return (returned (some idx)) next = returned idx
or_return panicked next = panicked
or_return unfinished next = unfinished

unfoldable pub find_safe_split : Text → ℕ → ℕ → Outcome ℕ
find_safe_split html start target =
    let target_end = min target (length html) in
    or_return (find_best_split html start target_end (10 ∷ 10 ∷ []) 2) (
      or_return (find_sentence_split html start target_end) (
        or_return (find_best_split html start target_end (b' ' ∷ []) 1)
          (returned (last_cut html start (target_end - start)))))

-- The end of a chunk: the safe split, or the last boundary in range when there is none.
unfoldable pub chunk_end : Text → ℕ → ℕ → ℕ → ℕ
chunk_end html start target_end split_at =
    if split_at == start then floor_boundary html (min target_end (length html)) else split_at

-- The rest of a round behind the search, which may panic.
unfoldable pub and_then : (ℕ → Outcome (List Text)) → Outcome ℕ → Outcome (List Text)
and_then next (returned split_at) = next split_at
and_then next panicked = panicked
and_then next unfinished = unfinished

-- The loop of `split_html_safely` from `start` on.
unfoldable pub split_html_from : ℕ → Text → ℕ → ℕ → Outcome (List Text)
split_html_from zero html max_len start = unfinished
split_html_from (suc f) html max_len start = elim (ltb start (length html)) [
  | false ↦ returned []
  | true ↦ elim (leb (length html - start) max_len) [
    | true ↦ push_chunk (byte_slice html start (length html)) (returned [])
    | false ↦
        and_then
          (λ split_at.
            let end = chunk_end html start (start + max_len) split_at in
            push_chunk (byte_slice html start end) (split_html_from f html max_len end))
          (find_safe_split html start (start + max_len))
  ]
]

unfoldable pub split_html_safely : Text → ℕ → Outcome (List Text)
split_html_safely html max_len =
    if leb (length html) max_len
    then returned (html ∷ [])
    else split_html_from (length html + 1) html max_len 0
