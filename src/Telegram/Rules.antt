-- ===== src/Telegram/Rules.antt =====
-- The rounds of `markdown_to_telegram_html` in src/channels/telegram.rs: what each goes on with.
use ah.Base.{
  ℕ, ◌+◌, ◌<◌, ◌≡◌, refl, subst, [], ◌∷◌, ◌++◌, Option, none, some, arith, ◌==◌, append-nil, inl,
  inr, Bool-cases, All, All-append, length,
}
use ah.Telegram.{Chars, chars, escape_html, replace_char}
use ah.Telegram.Escape.{escape_char, escape_html-cons}
use ah.Telegram.Html.{IsHtml, done, IsTagChar, IsHtml-escape_html}
use ah.Telegram.Markdown.{Piece, verbatim, wrapped, otherwise}

-- A pair of tags without attributes.
pub record IsPair (left right : Chars) : Type 0 where
  pub name : Chars
  pub tag_chars : All IsTagChar name
  pub opening : left ≡ b'<' ∷ (name ++ (b'>' ∷ []))
  pub closing : right ≡ b'<' ∷ b'/' ∷ (name ++ (b'>' ∷ []))

-- A round that starts at `i` goes on behind it, and recurs into less than what is left.
abbrev pub Fits : Chars → ℕ → Piece → Type 0
Fits text i (verbatim out next) = (i < next) × IsHtml out
Fits text i (wrapped left inner right next) =
    (i < next) × (i + length inner < length text) × IsPair left right

abbrev pub FitsOption : Chars → ℕ → Option Piece → Type 0
FitsOption text i none = Unit
FitsOption text i (some p) = Fits text i p

pub otherwise-Fits :
    (text : Chars) (i : ℕ) (o : Option Piece) (p : Piece)
    → FitsOption text i o
    → Fits text i p
    → Fits text i (otherwise o p)
unfolding otherwise
otherwise-Fits text i none p f g = g
otherwise-Fits text i (some q) p f g = f

pub escape_html-IsHtml : (s : Chars) → IsHtml (escape_html s)
escape_html-IsHtml s = subst IsHtml (append-nil (escape_html s)) (IsHtml-escape_html s done)

escape_char-IsTagChar : (c : ℕ) → All IsTagChar (escape_char c)
unfolding escape_char chars
escape_char-IsTagChar c = elim (Bool-cases (c == b'&')) [
  | inl e ↦ rw e (refl, (refl, (refl, (refl, (refl, tt)))))
  | inr e ↦ elim (Bool-cases (c == b'<')) [
    | inl f ↦ rw (e, f) (refl, (refl, (refl, (refl, tt))))
    | inr f ↦ elim (Bool-cases (c == b'>')) [
      | inl g ↦ rw (e, f, g) (refl, (refl, (refl, (refl, tt))))
      | inr g ↦ rw (e, f, g) (ground arith, tt)
    ]
  ]
]

pub escape_html-IsTagChar : (s : Chars) → All IsTagChar (escape_html s)
escape_html-IsTagChar [] = unfold escape_html replace_char in tt
escape_html-IsTagChar (c ∷ s) = rw (escape_html-cons c s) (
    All-append IsTagChar (escape_char c) (escape_html s) (escape_char-IsTagChar c)
      (escape_html-IsTagChar s))
