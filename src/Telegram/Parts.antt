-- ===== src/Telegram/Parts.antt =====
-- `split_markdown_semantic` and `prepare_text_parts` of src/channels/telegram.rs: the messages that a
-- text is sent in.
use ah.Base.{
  ℕ, Bool, true, false, ◌&&◌, not, List, [], ◌∷◌, ◌++◌, Option, none, some, Text, starts_with, ◌==◌,
  if◌then◌else◌,
}
use ah.Telegram.{
  Chars, encode, trim, trim_start, trim_end, is_empty, strip_tags, decode_html_entities,
}
use ah.Telegram.Markdown.{markdown_to_telegram_html}
use ah.Telegram.Split.{Outcome, returned, panicked, unfinished, split_text, split_html_safely}

pub data ChannelParseMode : Type 0 where
  markdown html : ChannelParseMode

-- The line with its carriage return taken off, as `str::lines` does where a line feed follows.
unfoldable pub drop_return : Chars → Chars
drop_return [] = []
drop_return (c ∷ []) = if c == 13 then [] else c ∷ []
drop_return (c ∷ d ∷ t) = c ∷ drop_return (d ∷ t)

-- `str::lines`, behind the characters `line` of the line that is being read.
unfoldable pub lines_from : Chars → Chars → List Chars
lines_from line [] = if is_empty line then [] else line ∷ []
lines_from line (c ∷ t) =
    let rest = lines_from (if c == 10 then [] else line ++ c ∷ []) t in
    if c == 10 then drop_return line ∷ rest else rest

unfoldable pub lines : Chars → List Chars
lines = lines_from []

unfoldable pub is_blank_text : Chars → Bool
is_blank_text text = is_empty (trim text)

-- `chunks`, `current` and `in_code` of `split_markdown_semantic`.
pub record Splitter : Type 0 where
  pub chunks : List Chars
  pub current : Chars
  pub in_code : Bool

-- `chunks.push(current.trim_end().to_string()); current.clear();`
unfoldable pub flush : Splitter → Splitter
flush s = record s { chunks = s.chunks ++ trim_end s.current ∷ []; current = [] }

unfoldable pub push_line : Splitter → Chars → Splitter
push_line s line = record s { current = s.current ++ line ++ 10 ∷ [] }

-- A line that starts with a fence.
unfoldable pub fence_line : Splitter → Chars → Splitter
fence_line s line =
    if s.in_code
    then record (flush (push_line s line)) { in_code = false }
    else push_line (record (if is_blank_text s.current then s else flush s) { in_code = true }) line

-- Any other line: a blank one outside of code ends a paragraph.
unfoldable pub text_line : Splitter → Chars → Splitter
text_line s line =
    let next = push_line s line in
    if not s.in_code && is_blank_text line
    then if is_blank_text next.current then record next { current = [] } else flush next
    else next

unfoldable pub split_line : Splitter → Chars → Splitter
split_line s line =
    if starts_with (trim_start line) (b'`' ∷ b'`' ∷ b'`' ∷ [])
    then fence_line s line
    else text_line s line

unfoldable pub split_lines : Splitter → List Chars → Splitter
split_lines s [] = s
split_lines s (line ∷ rest) = split_lines (split_line s line) rest

unfoldable pub split_markdown_semantic : Chars → List Chars
split_markdown_semantic text =
    let s = split_lines (record { chunks = []; current = []; in_code = false }) (lines text) in
    if is_blank_text s.current then s.chunks else s.chunks ++ trim_end s.current ∷ []

unfoldable pub telegram_max_text_length : ℕ
telegram_max_text_length = 4096

-- The parts of a chunk in HTML; a conversion that runs out of fuel has none.
unfoldable pub html_parts : Option Chars → Outcome (List Text)
html_parts none = unfinished
html_parts (some html') = split_html_safely (encode html') telegram_max_text_length

unfoldable pub append_parts : Outcome (List Text) → Outcome (List Text) → Outcome (List Text)
append_parts (returned parts) (returned rest) = returned (parts ++ rest)
append_parts (returned parts) panicked = panicked
append_parts (returned parts) unfinished = unfinished
append_parts panicked rest = panicked
append_parts unfinished rest = unfinished

-- The `map`, the `flat_map` and the `collect`.
unfoldable pub chunk_parts : List Chars → Outcome (List Text)
chunk_parts [] = returned []
chunk_parts (chunk ∷ rest) =
    append_parts (html_parts (markdown_to_telegram_html chunk)) (chunk_parts rest)

unfoldable pub prepare_text_parts : Chars → Option ChannelParseMode → Outcome (List Text)
prepare_text_parts content (some html) = split_html_safely (encode content) telegram_max_text_length
prepare_text_parts content none = chunk_parts (split_markdown_semantic content)
prepare_text_parts content (some markdown) = split_text (encode content) telegram_max_text_length

-- The text of `build_fallback_payload`.
unfoldable pub fallback_text : Chars → Chars
fallback_text html' = decode_html_entities (strip_tags html')
