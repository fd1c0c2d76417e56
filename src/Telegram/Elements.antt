-- ===== src/Telegram/Elements.antt =====
-- The rounds of `markdown_to_telegram_html` in src/channels/telegram.rs for links, headings, blocks of
-- code and single characters.
use ah.Base.{
  ℕ, ◌+◌, ◌<◌, refl, subst, ◌&&◌, [], ◌∷◌, ◌++◌, arith, ltb, append_assoc, inl, inr, Bool-cases,
  Option-cases, All, All-append, take, drop, starts_with,
}
use ah.Telegram.{Chars, chars, escape_html, is_empty, trim_end}
use ah.Telegram.Html.{IsHtml, IsPlain, done, character, element, IsTagChar}
use ah.Telegram.Markdown.{
  slice, find_char, code_block_tag, code_block, fenced, link_from, link, heading, plain,
  at_line_start, char_at, count_hashes, find_fence,
}
use ah.Telegram.Searches.{find_char-bound}
use ah.Telegram.Rules.{Fits, FitsOption, escape_html-IsHtml, escape_html-IsTagChar}

-- An element with one attribute in quotes.
quoted-IsHtml :
    (name key value inner : Chars)
    → All IsTagChar name
    → All IsTagChar key
    → All IsTagChar value
    → IsHtml inner
    → IsHtml (
        b'<'
        ∷ (name
            ++ (key
                ++ (value ++ (b'"' ∷ b'>' ∷ (inner ++ (b'<' ∷ b'/' ∷ (name ++ (b'>' ∷ [])))))))))
quoted-IsHtml name key value inner n k v h =
    let attributes = key ++ (value ++ (b'"' ∷ [])) in
    let tag_chars = All-append IsTagChar key _ k (All-append IsTagChar value _ v (refl, tt)) in
    subst IsHtml (simp append_assoc) (element name attributes n tag_chars h done)

link_from-Fits : (text : Chars) (i m : ℕ) → i < m → FitsOption text i (link_from text i m)
unfolding link_from chars
link_from-Fits text i m h = elim (Bool-cases (char_at text (m + 1) b'(')) [
  | inr e ↦ rw e tt
  | inl e ↦ elim (Option-cases (find_char b')' (drop (m + 2) text) (m + 2))) [
    | inl f ↦ rw (e, f) tt
    | inr (j, f) ↦
        let (low, high) = find_char-bound b')' (drop (m + 2) text) (m + 2) j f in
        rw (e, f)
          (
            omega arith,
            subst IsHtml (simp append_assoc) (
                quoted-IsHtml (chars "a") (chars " href=\"") _ _ (refl, tt)
                  (refl, (refl, (refl, (refl, (refl, (refl, (refl, tt)))))))
                  (escape_html-IsTagChar (slice (m + 2) j text))
                  (escape_html-IsHtml (slice (i + 1) m text))),
          )
  ]
]

pub link-Fits : (text : Chars) (i : ℕ) → FitsOption text i (link text i)
unfolding link
link-Fits text i = elim (Bool-cases (char_at text i b'[')) [
  | inr e ↦ rw e tt
  | inl e ↦ elim (Option-cases (find_char b']' (drop (i + 1) text) (i + 1))) [
    | inl f ↦ rw (e, f) tt
    | inr (j, f) ↦
        let (low, high) = find_char-bound b']' (drop (i + 1) text) (i + 1) j f in
        rw (e, f) (link_from-Fits text i j (omega arith))
  ]
]

heading-IsHtml : (t : Chars) → IsHtml (chars "<b>" ++ escape_html t ++ chars "</b>\n")
unfolding chars
heading-IsHtml t =
    let feed : IsPlain 10 = record {
      not_less = omega arith;
      not_greater = omega arith;
      not_ampersand = omega arith;
    } in
    subst IsHtml (simp append_assoc)
      (element (chars "b") [] (refl, tt) tt (escape_html-IsHtml t) (character feed done))

pub heading-Fits : (text : Chars) (i : ℕ) → FitsOption text i (heading text i)
unfolding heading
heading-Fits text i =
    let j = i + count_hashes (drop i text) in
    elim (Bool-cases (at_line_start text i && ltb i j && char_at text j b' ')) [
      | inr e ↦ rw e tt
      | inl e ↦ rw e (omega arith, heading-IsHtml _)
    ]

pub plain-Fits : (text : Chars) (i : ℕ) → Fits text i (plain text i)
unfolding plain
plain-Fits text i = (omega arith, escape_html-IsHtml (take 1 (drop i text)))

-- A block of code stands in an element of its own.
pre-IsHtml :
    (attributes body : Chars)
    → All IsTagChar attributes
    → IsHtml
        (chars "<pre><code" ++ attributes ++ chars ">" ++ escape_html body ++ chars "</code></pre>")
unfolding chars
pre-IsHtml attributes body a = subst IsHtml (simp append_assoc) (
    element (chars "pre") [] (refl, (refl, (refl, tt))) tt
      (element (chars "code") attributes (refl, (refl, (refl, (refl, tt)))) a
        (escape_html-IsHtml body) done)
      done)

code_block_tag-IsHtml :
    (lang body : Chars) → IsHtml (code_block_tag lang ++ escape_html body ++ chars "</code></pre>")
unfolding code_block_tag
code_block_tag-IsHtml lang body = elim (Bool-cases (is_empty lang)) [
  | inl e ↦ rw e (pre-IsHtml [] body tt)
  | inr e ↦ rw e (
      pre-IsHtml (chars " class=\"language-" ++ escape_html lang ++ chars "\"") body (
        All-append IsTagChar (chars " class=\"language-" ++ escape_html lang) _
          (All-append IsTagChar (chars " class=\"language-") _
            (unfold chars in
              (
                refl,
                (
                  refl,
                  (
                    refl,
                    (
                      refl,
                      (
                        refl,
                        (
                          refl,
                          (
                            refl,
                            (
                              refl,
                              (
                                refl,
                                (refl, (refl, (refl, (refl, (refl, (refl, (refl, (refl, tt)))))))),
                              ),
                            ),
                          ),
                        ),
                      ),
                    ),
                  ),
                ),
              ))
            (escape_html-IsTagChar lang))
          (unfold chars in (refl, tt))))
]

code_block-Fits :
    (rest lang : Chars) (start i : ℕ) (text : Chars)
    → FitsOption text i (code_block rest lang start i)
unfolding code_block
code_block-Fits rest lang start i text = elim (Option-cases (find_fence (drop start rest) 0)) [
  | inl e ↦ rw (code_block, e) tt
  | inr (end, e) ↦
      rw (code_block, e)
        (omega arith, code_block_tag-IsHtml lang (trim_end (take end (drop start rest))))
]

pub fenced-Fits : (text : Chars) (i : ℕ) → FitsOption text i (fenced text i)
unfolding fenced
fenced-Fits text i = elim (Bool-cases (starts_with (drop i text) (b'`' ∷ b'`' ∷ b'`' ∷ []))) [
  | inr e ↦ rw e tt
  | inl e ↦ elim (Option-cases (find_char 10 (drop (i + 3) text) 0)) [
    | inl f ↦ rw (e, f) (code_block-Fits _ _ 0 i text)
    | inr (nl, f) ↦ rw (e, f) (code_block-Fits _ _ (nl + 1) i text)
  ]
]
