-- ===== src/Telegram/Tests.antt =====
-- Tests and witnesses on the text of src/channels/telegram.rs.
use ah.Base.{
  ℕ, ◌≡◌, ◌≢◌, ◌⊎◌, ◌<◌, refl, Bool, List, [], ◌∷◌, Option, none, some, arith, Text, bytes, length,
  All, false,
}
use ah.Inbox.Excerpt.{is_char_boundary}
use ah.Telegram.{Chars, chars, encode, escape_html, strip_tags, decode_html_entities}
use ah.Telegram.Chunks.{HasInside, split_html_safely-IsSplit}
use ah.Telegram.Convert.{markdown_to_telegram_html-IsHtml}
use ah.Telegram.Cuts.{IsSplit, split_text-IsSplit}
use ah.Telegram.Escape.{decode_html_entities-strip_tags-escape_html}
use ah.Telegram.Html.{IsHtml}
use ah.Telegram.Limit.{Fits, prepare_text_parts-Fits}
use ah.Telegram.Markdown.{markdown_to_telegram_html}
use ah.Telegram.Panics.{split_html_safely-panicked}
use ah.Telegram.Parts.{prepare_text_parts, split_markdown_semantic, markdown, html}
use ah.Telegram.Split.{Outcome, returned, panicked, split_text, split_html_safely}

abbrev converted : Chars → Option Chars
unfolding markdown_to_telegram_html ah.Telegram.Markdown.convert ah.Telegram.Markdown.piece
    ah.Telegram.Markdown.otherwise ah.Telegram.Markdown.fenced ah.Telegram.Markdown.inline_code
    ah.Telegram.Markdown.char_at ah.Telegram.Markdown.bold ah.Telegram.Markdown.italic
    ah.Telegram.Markdown.strikethrough ah.Telegram.Markdown.link ah.Telegram.Markdown.heading
    ah.Telegram.Markdown.at_line_start ah.Telegram.Markdown.count_hashes ah.Telegram.Markdown.plain
    ah.Telegram.Markdown.assemble ah.Telegram.Markdown.round ah.Telegram.Markdown.wrap
    ah.Telegram.Markdown.find_closing_pair ah.Telegram.Markdown.byte_offset
    ah.Telegram.Markdown.code_block ah.Telegram.Markdown.code_block_tag
    ah.Telegram.Markdown.find_char ah.Telegram.Markdown.find_closing_single
    ah.Telegram.Markdown.find_fence ah.Telegram.Markdown.find_pair ah.Telegram.Markdown.line_length
    ah.Telegram.Markdown.link_from ah.Telegram.Markdown.slice ah.Telegram.encode
    ah.Telegram.escape_html ah.Telegram.is_empty ah.Telegram.is_whitespace ah.Telegram.replace_char
    ah.Telegram.trim ah.Telegram.trim_end ah.Telegram.trim_start ah.Base.utf8 chars
converted = markdown_to_telegram_html

-- `markdown_to_telegram_html`
test_nested : converted (chars "**b _c_**<d>") ≡ some (chars "<b>b <i>c</i></b>&lt;d&gt;")
unfolding converted chars
test_nested = refl

test_block :
    converted (chars "```rs\nf\n```x")
    ≡ some (chars "<pre><code class=\"language-rs\">f</code></pre>x")
unfolding converted chars
test_block = refl

-- The text behind a block of two Chinese characters is lost: its end is counted in bytes.
test_block_bytes : converted (chars "```\n同同```abc") ≡ some (chars "<pre><code>同同</code></pre>")
unfolding converted chars
test_block_bytes = refl

test_heading : converted (chars "# T\n~~s~~`c`") ≡ some (chars "<b>T</b>\n<s>s</s><code>c</code>")
unfolding converted chars
test_heading = refl

test_quote : converted (chars "[t](a\" b)") ≡ some (chars "<a href=\"a\" b\">t</a>")
unfolding converted chars
test_quote = refl

-- `split_html_safely`: behind a sentence, at a space, and outside a tag.
abbrev html_split : Text → ℕ → Outcome (List Text)
unfolding split_html_safely ah.Telegram.Split.split_html_from ah.Telegram.Split.and_then
    ah.Telegram.Split.find_safe_split ah.Telegram.Split.or_return ah.Telegram.Split.find_best_split
    ah.Telegram.Split.find_sentence_split ah.Telegram.Split.search_part
    ah.Telegram.Split.last_outside ah.Telegram.Split.match_indices ah.Telegram.Split.sentence_ends
    ah.Telegram.Split.last_cut ah.Telegram.Split.is_outside_tag ah.Telegram.Split.in_tag_behind
    ah.Telegram.in_tag_after ah.Telegram.Split.byte_slice ah.Telegram.Split.push_chunk
    ah.Telegram.Split.chunk_end ah.Inbox.Excerpt.is_char_boundary ah.Inbox.Excerpt.floor_boundary
html_split = split_html_safely

test_sentence :
    html_split (bytes "a. b c d") 5 ≡ returned (bytes "a." ∷ bytes " b c " ∷ bytes "d" ∷ [])
unfolding html_split bytes
test_sentence = refl

test_tag :
    html_split (bytes "ab<i>c</i>") 4 ≡ returned (bytes "ab" ∷ bytes "<i>c" ∷ bytes "</i>" ∷ [])
unfolding html_split bytes
test_tag = refl

-- `split_markdown_semantic`
abbrev semantic : Chars → List Chars
unfolding split_markdown_semantic ah.Telegram.Parts.split_lines ah.Telegram.Parts.split_line
    ah.Telegram.Parts.text_line ah.Telegram.Parts.fence_line ah.Telegram.Parts.push_line
    ah.Telegram.Parts.flush ah.Telegram.Parts.is_blank_text ah.Telegram.Parts.lines
    ah.Telegram.Parts.lines_from ah.Telegram.Parts.drop_return ah.Telegram.is_empty
    ah.Telegram.is_whitespace ah.Telegram.trim ah.Telegram.trim_end ah.Telegram.trim_start
semantic = split_markdown_semantic

test_semantic :
    semantic (chars "a\n\n```\nb\n```\nc") ≡ chars "a" ∷ chars "```\nb\n```" ∷ chars "c" ∷ []
unfolding semantic chars
test_semantic = refl

-- The witnesses.
length_sample : length (encode (chars "同a")) ≡ 4
unfolding encode chars ah.Base.utf8
length_sample = refl

markdown_to_telegram_html-IsHtml_example :
    (html' : Chars) × (markdown_to_telegram_html (chars "**a** <b>") ≡ some html') × IsHtml html'
markdown_to_telegram_html-IsHtml_example = markdown_to_telegram_html-IsHtml (chars "**a** <b>")

prepare_text_parts-Fits_example :
    ((parts : List Text) × (prepare_text_parts (chars "a\n\n**b**") none ≡ returned parts)
      × All Fits parts)
    ⊎ ((prepare_text_parts (chars "a\n\n**b**") none ≡ panicked) × (none ≢ some markdown))
prepare_text_parts-Fits_example = prepare_text_parts-Fits (chars "a\n\n**b**") none

split_html_safely-IsSplit_example :
    ((chunks : List Text) × (split_html_safely (encode (chars "同a")) 4 ≡ returned chunks)
      × IsSplit 4 (encode (chars "同a")) chunks)
    ⊎ ((split_html_safely (encode (chars "同a")) 4 ≡ panicked) × HasInside (encode (chars "同a")))
split_html_safely-IsSplit_example =
    split_html_safely-IsSplit (chars "同a") 4 (omega arith) (omega (arith, length_sample))

split_text-IsSplit_example :
    (chunks : List Text) × (split_text (encode (chars "同a")) 4 ≡ returned chunks)
    × IsSplit 4 (encode (chars "同a")) chunks
split_text-IsSplit_example =
    split_text-IsSplit (chars "同a") 4 (omega arith) (omega (arith, length_sample))

long_text : 4 < length (bytes "同同")
unfolding bytes
long_text = omega arith

inside_character : is_char_boundary (bytes "同同") 4 ≡ false
unfolding is_char_boundary bytes
inside_character = refl

-- Two Chinese characters with a limit of 4 bytes.
split_html_safely-panicked_example : split_html_safely (bytes "同同") 4 ≡ panicked
split_html_safely-panicked_example =
    split_html_safely-panicked (bytes "同同") 4 long_text inside_character

escape_html-round_example :
    decode_html_entities (strip_tags (escape_html (chars "a<b&&lt;"))) ≡ chars "a<b&&lt;"
escape_html-round_example = decode_html_entities-strip_tags-escape_html (chars "a<b&&lt;")
