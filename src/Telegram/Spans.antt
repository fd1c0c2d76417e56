-- ===== src/Telegram/Spans.antt =====
-- The rounds of `markdown_to_telegram_html` in src/channels/telegram.rs for bold, italic and struck
-- text and for inline code.
use ah.Base.{
  ℕ, ◌+◌, ◌<◌, ◌≤◌, ◌≡◌, refl, [], ◌∷◌, Option, none, some, arith, inl, inr, Bool-cases,
  Option-cases, length, drop, starts_with,
}
use ah.Telegram.{Chars, chars}
use ah.Telegram.Html.{done, element}
use ah.Telegram.Markdown.{find_char, inline_code, wrap, bold, italic, strikethrough, char_at}
use ah.Telegram.Searches.{
  find_char-bound, find_closing_single-bound, find_closing_pair-bound, length-slice,
}
use ah.Telegram.Rules.{FitsOption, IsPair, escape_html-IsHtml}

-- The rules, each at an index in range.
wrap-Fits :
    (text left right : Chars) (i width : ℕ) (end : Option ℕ)
    → IsPair left right
    → ((j : ℕ) → end ≡ some j → (i + width ≤ j) × (j < length text))
    → 1 ≤ width
    → FitsOption text i (wrap text left right i width end)
unfolding wrap
wrap-Fits text left right i width none pair h w = tt
wrap-Fits text left right i width (some j) pair h w =
    let (low, high) = h j refl in
    (omega arith, omega (arith, length-slice (i + width) j text), pair)

bold-IsPair : IsPair (chars "<b>") (chars "</b>")
unfolding chars
bold-IsPair = record { name = b'b' ∷ []; tag_chars = (refl, tt); opening = refl; closing = refl }

italic-IsPair : IsPair (chars "<i>") (chars "</i>")
unfolding chars
italic-IsPair = record { name = b'i' ∷ []; tag_chars = (refl, tt); opening = refl; closing = refl }

strike-IsPair : IsPair (chars "<s>") (chars "</s>")
unfolding chars
strike-IsPair = record { name = b's' ∷ []; tag_chars = (refl, tt); opening = refl; closing = refl }

pub bold-Fits : (text : Chars) (i : ℕ) → FitsOption text i (bold text i)
unfolding bold
bold-Fits text i = elim (Bool-cases (starts_with (drop i text) (b'*' ∷ b'*' ∷ []))) [
  | inl e ↦ rw e (
      wrap-Fits text _ _ i 2 _ bold-IsPair (find_closing_pair-bound text (i + 2) b'*' b'*')
        (omega arith))
  | inr e ↦ elim (Bool-cases (starts_with (drop i text) (b'_' ∷ b'_' ∷ []))) [
    | inl f ↦
        rw (e, f)
          (wrap-Fits text _ _ i 2 _ bold-IsPair (find_closing_pair-bound text (i + 2) b'_' b'_')
            (omega arith))
    | inr f ↦ rw (e, f) tt
  ]
]

pub italic-Fits : (text : Chars) (i : ℕ) → FitsOption text i (italic text i)
unfolding italic
italic-Fits text i = elim (Bool-cases (char_at text i b'*')) [
  | inl e ↦ rw e (
      wrap-Fits text _ _ i 1 _ italic-IsPair (find_closing_single-bound text (i + 1) b'*')
        (omega arith))
  | inr e ↦ elim (Bool-cases (char_at text i b'_')) [
    | inl f ↦
        rw (e, f)
          (wrap-Fits text _ _ i 1 _ italic-IsPair (find_closing_single-bound text (i + 1) b'_')
            (omega arith))
    | inr f ↦ rw (e, f) tt
  ]
]

pub strikethrough-Fits : (text : Chars) (i : ℕ) → FitsOption text i (strikethrough text i)
unfolding strikethrough
strikethrough-Fits text i = elim (Bool-cases (starts_with (drop i text) (b'~' ∷ b'~' ∷ []))) [
  | inl e ↦ rw e (
      wrap-Fits text _ _ i 2 _ strike-IsPair (find_closing_pair-bound text (i + 2) b'~' b'~')
        (omega arith))
  | inr e ↦ rw e tt
]

pub inline_code-Fits : (text : Chars) (i : ℕ) → FitsOption text i (inline_code text i)
unfolding inline_code chars
inline_code-Fits text i = elim (Bool-cases (char_at text i b'`')) [
  | inr e ↦ rw e tt
  | inl e ↦ elim (Option-cases (find_char b'`' (drop (i + 1) text) (i + 1))) [
    | inl f ↦ rw (e, f) tt
    | inr (j, f) ↦
        let (low, high) = find_char-bound b'`' (drop (i + 1) text) (i + 1) j f in
        rw (e, f)
          (
            omega arith,
            element (chars "code") [] (refl, (refl, (refl, (refl, tt)))) tt (escape_html-IsHtml _)
                done,
          )
  ]
]
