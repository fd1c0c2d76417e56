-- ===== src/Telegram/Escape.antt =====
-- `escape_html` of src/channels/telegram.rs against `strip_tags` and `decode_html_entities`, which
-- the plain-text fallback of a message applies to its HTML.
use ah.Base.{
  ℕ, ◌≡◌, refl, sym, ap, ◌∙◌, false, [], ◌∷◌, ◌++◌, none, arith, ◌==◌, if◌then◌else◌, append_assoc,
}
use ah.Telegram.{
  Chars, chars, replace_char, escape_html, strip_from, strip_tags, in_tag_after, decode_from,
  decode_html_entities, entity_text,
}

-- What `escape_html` makes of one character.
unfoldable pub escape_char : ℕ → Chars
unfolding chars
escape_char c =
    if c == b'&'
    then chars "&amp;"
    else if c == b'<'
    then chars "&lt;"
    else if c == b'>'
    then chars "&gt;"
    else c ∷ []

replace_char-append :
    (c : ℕ) (to s t : Chars)
    → replace_char c to (s ++ t) ≡ replace_char c to s ++ replace_char c to t
unfolding replace_char
replace_char-append c to [] t = refl
replace_char-append c to (d ∷ s) t =
    rw (replace_char-append c to s t) (sym (append_assoc _ (replace_char c to s) _))

escape_html-one : (c : ℕ) → escape_html (c ∷ []) ≡ escape_char c
unfolding escape_html replace_char escape_char chars
escape_html-one c = ground arith

escape_html-append : (s t : Chars) → escape_html (s ++ t) ≡ escape_html s ++ escape_html t
unfolding escape_html
escape_html-append s t = simp replace_char-append

-- `escape_html` escapes each character for itself.
pub escape_html-cons : (c : ℕ) (t : Chars) → escape_html (c ∷ t) ≡ escape_char c ++ escape_html t
escape_html-cons c t =
    escape_html-append (c ∷ []) t ∙ ap (λ x. x ++ escape_html t) (escape_html-one c)

strip_from-escape_char :
    (c : ℕ) (t : Chars)
    → strip_from false (escape_char c ++ t) ≡ escape_char c ++ strip_from false t
unfolding strip_from escape_char chars in_tag_after
strip_from-escape_char c t = ground arith

decode_from-escape_char :
    (c : ℕ) (t : Chars) → decode_from none (escape_char c ++ t) ≡ c ∷ decode_from none t
unfolding decode_from escape_char chars entity_text
decode_from-escape_char c t = ground arith

strip_tags-escape_html : (t : Chars) → strip_tags (escape_html t) ≡ escape_html t
unfolding strip_tags
strip_tags-escape_html [] = unfold escape_html replace_char strip_from in refl
strip_tags-escape_html (c ∷ t) = rw escape_html-cons (
    strip_from-escape_char c (escape_html t)
    ∙ ap (λ x. escape_char c ++ x) (strip_tags-escape_html t))

decode_html_entities-escape_html : (t : Chars) → decode_html_entities (escape_html t) ≡ t
unfolding decode_html_entities
decode_html_entities-escape_html [] = unfold escape_html replace_char decode_from in refl
decode_html_entities-escape_html (c ∷ t) = rw escape_html-cons (
    decode_from-escape_char c (escape_html t)
    ∙ ap (λ x. c ∷ x) (decode_html_entities-escape_html t))

-- The plain text that the fallback makes of an escaped text is the text: no character is lost to the
-- stripped tags, and none stays escaped.
pub decode_html_entities-strip_tags-escape_html :
    (t : Chars) → decode_html_entities (strip_tags (escape_html t)) ≡ t
decode_html_entities-strip_tags-escape_html t =
    rw (strip_tags-escape_html t) (decode_html_entities-escape_html t)
