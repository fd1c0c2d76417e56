-- ===== src/Telegram.antt =====
-- The character side of the text of src/channels/telegram.rs: `escape_html`, `strip_tags` and
-- `decode_html_entities`. A text is the list of its code points here, since this code walks
-- `chars()`; `encode` gives the bytes of a `str`, which Telegram/Split measures and cuts.
use Prim.Native.Char.{code}
use Prim.Native.String.{String}
use ah.Base.{
  ℕ, Bool, true, false, ◌||◌, List, [], ◌∷◌, ◌++◌, Option, none, some, Text, utf8, ◌==◌,
  if◌then◌else◌, text_eq, ltb, leb, ◌&&◌,
}
mod Escape
mod Markdown
mod Html
mod Searches
mod Rules
mod Spans
mod Elements
mod Convert
mod Split
mod Boundaries
mod Cuts
mod Searching
mod Chunks
mod Panics
mod Parts
mod Limit
mod Tests

-- `Vec<char>`, and a `str` that is only walked by characters.
abbrev pub Chars : Type 0
Chars = List ℕ

unfoldable pub chars : String → Chars
chars String.[] = []
chars (String.◌∷◌ c s) = code c ∷ chars s

-- The bytes of the `str` with these characters.
unfoldable pub encode : Chars → Text
encode [] = []
encode (c ∷ t) = utf8 c ++ encode t

-- `str::replace` of a character.
unfoldable pub replace_char : ℕ → Chars → Chars → Chars
replace_char c to [] = []
replace_char c to (d ∷ t) = (if d == c then to else d ∷ []) ++ replace_char c to t

unfoldable pub escape_html : Chars → Chars
unfolding chars
escape_html text =
    replace_char b'>' (chars "&gt;")
      (replace_char b'<' (chars "&lt;") (replace_char b'&' (chars "&amp;") text))

-- The flag `in_tag` after a character.
unfoldable pub in_tag_after : Bool → ℕ → Bool
in_tag_after in_tag c = if c == b'<' then true else if c == b'>' then false else in_tag

unfoldable pub strip_from : Bool → Chars → Chars
strip_from in_tag [] = []
strip_from in_tag (c ∷ t) =
    let rest = strip_from (in_tag_after in_tag c) t in
    if c == b'<' || c == b'>' || in_tag then rest else c ∷ rest

unfoldable pub strip_tags : Chars → Chars
strip_tags = strip_from false

-- The `match` on a terminated entity.
unfoldable pub entity_text : Chars → Chars
unfolding chars
entity_text entity =
    if text_eq entity (chars "lt")
    then chars "<"
    else if text_eq entity (chars "gt")
    then chars ">"
    else if text_eq entity (chars "amp")
    then chars "&"
    else if text_eq entity (chars "quot")
    then chars "\""
    else if text_eq entity (chars "#39")
    then chars "'"
    else b'&' ∷ entity ++ b';' ∷ []

-- The two loops: outside an entity (`none`), and inside one with the characters read of it.
unfoldable pub decode_from : Option Chars → Chars → Chars
decode_from none [] = []
decode_from none (c ∷ t) =
    let rest = decode_from (if c == b'&' then some [] else none) t in
    if c == b'&' then rest else c ∷ rest
decode_from (some entity) [] = b'&' ∷ entity
decode_from (some entity) (c ∷ t) =
    let rest = decode_from (if c == b';' then none else some (entity ++ c ∷ [])) t in
    if c == b';' then entity_text entity ++ rest else rest

unfoldable pub decode_html_entities : Chars → Chars
decode_html_entities = decode_from none

-- `char::is_whitespace`: the White_Space property of Unicode.
unfoldable pub is_whitespace : ℕ → Bool
is_whitespace c =
    (leb 9 c && leb c 13)
    || c == 0x20
    || c == 0x85
    || c == 0xA0
    || c == 0x1680
    || (leb 0x2000 c && leb c 0x200A)
    || c == 0x2028
    || c == 0x2029
    || c == 0x202F
    || c == 0x205F
    || c == 0x3000

-- `str::trim_start`.
unfoldable pub trim_start : Chars → Chars
trim_start [] = []
trim_start (c ∷ t) = let rest = trim_start t in if is_whitespace c then rest else c ∷ t

unfoldable pub is_empty : Chars → Bool
is_empty [] = true
is_empty (c ∷ t) = false

-- `str::trim_end`.
unfoldable pub trim_end : Chars → Chars
trim_end [] = []
trim_end (c ∷ t) =
    let rest = trim_end t in if is_empty rest && is_whitespace c then [] else c ∷ rest

unfoldable pub trim : Chars → Chars
trim text = trim_end (trim_start text)
