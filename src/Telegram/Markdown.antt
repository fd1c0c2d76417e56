-- ===== src/Telegram/Markdown.antt =====
-- `markdown_to_telegram_html` of src/channels/telegram.rs. One round of its loop is `piece`: a rule
-- for each kind of markup, tried in the order of the source, which says what the round writes and
-- where the next one goes on. The source recurs into the text inside bold, italic and struck text.
use ah.Base.{
  ℕ, zero, suc, ◌+◌, ◌-◌, Bool, true, false, ◌&&◌, [], ◌∷◌, ◌++◌, Option, none, some, length,
  get_elem?, take, drop, starts_with, ltb, leb, ◌==◌, if◌then◌else◌,
}
use ah.Telegram.{Chars, chars, encode, escape_html, trim, trim_end, is_empty}

-- What a round of the loop does: it writes a text, or tags around the conversion of a text; both go
-- on at an index.
pub data Piece : Type 0 where
  verbatim : Chars → ℕ → Piece
  wrapped : Chars → Chars → Chars → ℕ → Piece

-- `chars[from..to]`
unfoldable pub slice : ℕ → ℕ → Chars → Chars
slice start end text = take (end - start) (drop start text)

-- `chars[i] == c`, with `i` in range or not.
unfoldable pub char_at : Chars → ℕ → ℕ → Bool
char_at text i c = elim (get_elem? text i) [ none ↦ false | some d ↦ d == c ]

-- The index of the first `c` from `start` on, with `start` added: the searches of the loop.
unfoldable pub find_char : ℕ → Chars → ℕ → Option ℕ
find_char c [] start = none
find_char c (d ∷ t) start =
    let rest = find_char c t (suc start) in if d == c then some start else rest

unfoldable pub find_closing_single : Chars → ℕ → ℕ → Option ℕ
find_closing_single text start m = find_char m (drop start text) start

unfoldable pub find_pair : ℕ → ℕ → Chars → ℕ → Option ℕ
find_pair a b [] start = none
find_pair a b (c ∷ []) start = none
find_pair a b (c ∷ d ∷ t) start =
    let rest = find_pair a b (d ∷ t) (suc start) in if c == a && d == b then some start else rest

unfoldable pub find_closing_pair : Chars → ℕ → ℕ → ℕ → Option ℕ
find_closing_pair text start a b =
    if leb (length text) (start + 1) then none else find_pair a b (drop start text) start

-- `str::find("```")`, as the number of characters in front of it.
unfoldable pub find_fence : Chars → ℕ → Option ℕ
find_fence [] start = none
find_fence (c ∷ t) start =
    let rest = find_fence t (suc start) in
    if starts_with (c ∷ t) (b'`' ∷ b'`' ∷ b'`' ∷ []) then some start else rest

-- The byte offset of a character of a `str`.
unfoldable pub byte_offset : Chars → ℕ → ℕ
byte_offset text n = length (encode (take n text))

-- The tag that opens a code block.
unfoldable pub code_block_tag : Chars → Chars
unfolding chars
code_block_tag lang =
    chars "<pre><code"
    ++ (if is_empty lang then [] else chars " class=\"language-" ++ escape_html lang ++ chars "\"")
    ++ chars ">"

-- The block whose language is `lang` and whose body starts at the character `start` of `rest`, the
-- text behind the opening fence. `body_start` and `body_end` are byte offsets of `rest`, and the
-- source adds the second one to the character index `i`.
unfoldable pub code_block : Chars → Chars → ℕ → ℕ → Option Piece
unfolding chars
code_block rest lang start i = elim (find_fence (drop start rest) 0) [
  | none ↦ none
  | some end ↦
      let body = trim_end (take end (drop start rest)) in
      let body_end = byte_offset rest start + byte_offset (drop start rest) end in
      some (
        verbatim (code_block_tag lang ++ escape_html body ++ chars "</code></pre>")
          (i + (3 + body_end + 3)))
]

unfoldable pub fenced : Chars → ℕ → Option Piece
fenced text i =
    if starts_with (drop i text) (b'`' ∷ b'`' ∷ b'`' ∷ [])
    then (let rest = drop (i + 3) text in
        elim (find_char 10 rest 0) [
          | some nl ↦ code_block rest (trim (take nl rest)) (nl + 1) i
          | none ↦ code_block rest [] 0 i
        ])
    else none

unfoldable pub inline_code : Chars → ℕ → Option Piece
unfolding chars
inline_code text i =
    if char_at text i b'`'
    then elim (find_char b'`' (drop (i + 1) text) (i + 1)) [
      | none ↦ none
      | some j ↦ some (
          verbatim (chars "<code>" ++ escape_html (slice (i + 1) j text) ++ chars "</code>")
            (j + 1))
    ]
    else none

-- The tags around the text inside, which ends at `end` with a marker of `width` characters.
unfoldable pub wrap : Chars → Chars → Chars → ℕ → ℕ → Option ℕ → Option Piece
wrap text left right i width none = none
wrap text left right i width (some end) =
    some (wrapped left (slice (i + width) end text) right (end + width))

unfoldable pub bold : Chars → ℕ → Option Piece
unfolding chars
bold text i =
    if starts_with (drop i text) (b'*' ∷ b'*' ∷ [])
    then wrap text (chars "<b>") (chars "</b>") i 2 (find_closing_pair text (i + 2) b'*' b'*')
    else if starts_with (drop i text) (b'_' ∷ b'_' ∷ [])
    then wrap text (chars "<b>") (chars "</b>") i 2 (find_closing_pair text (i + 2) b'_' b'_')
    else none

unfoldable pub italic : Chars → ℕ → Option Piece
unfolding chars
italic text i =
    if char_at text i b'*'
    then wrap text (chars "<i>") (chars "</i>") i 1 (find_closing_single text (i + 1) b'*')
    else if char_at text i b'_'
    then wrap text (chars "<i>") (chars "</i>") i 1 (find_closing_single text (i + 1) b'_')
    else none

unfoldable pub strikethrough : Chars → ℕ → Option Piece
unfolding chars
strikethrough text i =
    if starts_with (drop i text) (b'~' ∷ b'~' ∷ [])
    then wrap text (chars "<s>") (chars "</s>") i 2 (find_closing_pair text (i + 2) b'~' b'~')
    else none

unfoldable pub link_from : Chars → ℕ → ℕ → Option Piece
unfolding chars
link_from text i close_bracket =
    if char_at text (close_bracket + 1) b'('
    then elim (find_char b')' (drop (close_bracket + 2) text) (close_bracket + 2)) [
      | none ↦ none
      | some close_paren ↦ some (
          verbatim
            (chars "<a href=\""
              ++ escape_html (slice (close_bracket + 2) close_paren text)
              ++ chars "\">"
              ++ escape_html (slice (i + 1) close_bracket text)
              ++ chars "</a>")
            (close_paren + 1))
    ]
    else none

unfoldable pub link : Chars → ℕ → Option Piece
link text i =
    if char_at text i b'['
    then elim (find_char b']' (drop (i + 1) text) (i + 1)) [
      | none ↦ none
      | some close_bracket ↦ link_from text i close_bracket
    ]
    else none

-- The number of characters in front of the first that is not `#`.
unfoldable pub count_hashes : Chars → ℕ
count_hashes [] = 0
count_hashes (c ∷ t) = let rest = count_hashes t in if c == b'#' then suc rest else 0

-- The number of characters in front of the first line feed, or of all.
unfoldable pub line_length : Chars → ℕ
line_length [] = 0
line_length (c ∷ t) = let rest = line_length t in if c == 10 then 0 else suc rest

-- `i == 0 || chars[i - 1] == '\n'`
unfoldable pub at_line_start : Chars → ℕ → Bool
at_line_start text zero = true
at_line_start text (suc i) = char_at text i 10

unfoldable pub heading : Chars → ℕ → Option Piece
unfolding chars
heading text i =
    let j = i + count_hashes (drop i text) in
    let k = j + 1 + line_length (drop (j + 1) text) in
    if at_line_start text i && ltb i j && char_at text j b' '
    then some
        (verbatim (chars "<b>" ++ escape_html (slice (j + 1) k text) ++ chars "</b>\n") (k + 1))
    else none

-- `out.push_str(&escape_html(&chars[i].to_string()))`
unfoldable pub plain : Chars → ℕ → Piece
plain text i = verbatim (escape_html (take 1 (drop i text))) (i + 1)

unfoldable pub otherwise : Option Piece → Piece → Piece
otherwise none p = p
otherwise (some q) p = q

-- A round of the loop, in the order of its tests.
unfoldable pub piece : Chars → ℕ → Piece
piece text i = otherwise (fenced text i) (
    otherwise (inline_code text i) (
      otherwise (bold text i) (
        otherwise (italic text i) (
          otherwise (strikethrough text i)
            (otherwise (link text i) (otherwise (heading text i) (plain text i)))))))

-- The tags around the inner conversion, and then the rest of the loop.
unfoldable pub assemble : Chars → Option Chars → Chars → Option Chars → Option Chars
assemble left none right rest = none
assemble left (some inner) right none = none
assemble left (some inner) right (some rest) = some (left ++ inner ++ right ++ rest)

-- A round, with the conversion that goes on behind it and inside the tags.
unfoldable pub round : (Chars → ℕ → Option Chars) → Chars → Piece → Option Chars
round again text (verbatim out next) = assemble out (some []) [] (again text next)
round again text (wrapped left inner right next) =
    assemble left (again inner 0) right (again text next)

-- The loop from index `i` on: what it appends to `out`, or none when the fuel runs out.
unfoldable pub convert : ℕ → Chars → ℕ → Option Chars
convert zero text i = none
convert (suc f) text i = elim (ltb i (length text)) [
  | false ↦ some []
  | true ↦ round (convert f) text (piece text i)
]

unfoldable pub markdown_to_telegram_html : Chars → Option Chars
markdown_to_telegram_html text = convert (length text + 1) text 0
