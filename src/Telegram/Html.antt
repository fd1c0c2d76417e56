-- ===== src/Telegram/Html.antt =====
-- The HTML that a message may hold, as an independent description for src/channels/telegram.rs.
use ah.Base.{
  ℕ, ◌≡◌, false, [], ◌∷◌, ◌++◌, arith, ◌==◌, append_assoc, inl, inr, Bool-cases, ◌≢◌, ◌||◌, All,
}
use ah.Telegram.{Chars, chars, escape_html, replace_char}
use ah.Telegram.Escape.{escape_char, escape_html-cons}

-- A character that stands for itself.
pub record IsPlain (c : ℕ) : Type 0 where
  pub not_less : c ≢ b'<'
  pub not_greater : c ≢ b'>'
  pub not_ampersand : c ≢ b'&'

-- A character inside a tag.
abbrev pub IsTagChar : ℕ → Type 0
IsTagChar c = (c == b'<' || c == b'>') ≡ false

-- Texts in which every `<`, `>` and `&` belongs to an entity or to a tag, every tag is closed, and
-- the tags nest.
pub data IsHtml : Chars → Type 0 where
  done : IsHtml []
  character : {c : ℕ} {t : Chars} → IsPlain c → IsHtml t → IsHtml (c ∷ t)
  ampersand : {t : Chars} → IsHtml t → IsHtml (chars "&amp;" ++ t)
  less_than : {t : Chars} → IsHtml t → IsHtml (chars "&lt;" ++ t)
  greater_than : {t : Chars} → IsHtml t → IsHtml (chars "&gt;" ++ t)
  element :
      (name attributes : Chars) {inner t : Chars}
      → All IsTagChar name
      → All IsTagChar attributes
      → IsHtml inner
      → IsHtml t
      → IsHtml (
          b'<' ∷ (name ++ (attributes ++ (b'>' ∷ (inner ++ (b'<' ∷ b'/' ∷ (name ++ (b'>' ∷ t))))))))

pub IsHtml-escape_char : {t : Chars} (c : ℕ) → IsHtml t → IsHtml (escape_char c ++ t)
unfolding escape_char
IsHtml-escape_char c h = elim (Bool-cases (c == b'&')) [
  | inl e ↦ rw e (ampersand h)
  | inr e ↦ elim (Bool-cases (c == b'<')) [
    | inl f ↦ rw (e, f) (less_than h)
    | inr f ↦ elim (Bool-cases (c == b'>')) [
      | inl g ↦ rw (e, f, g) (greater_than h)
      | inr g ↦
          let plain : IsPlain c = record {
            not_less = ground arith;
            not_greater = ground arith;
            not_ampersand = ground arith;
          } in
          rw (e, f, g) (character plain h)
    ]
  ]
]

pub IsHtml-escape_html : (s : Chars) {t : Chars} → IsHtml t → IsHtml (escape_html s ++ t)
IsHtml-escape_html [] h = unfold escape_html replace_char in h
IsHtml-escape_html (c ∷ s) {t} h =
    rw (escape_html-cons c s, append_assoc (escape_char c) (escape_html s) t)
      (IsHtml-escape_char c (IsHtml-escape_html s h))

pub IsHtml-append : {s t : Chars} → IsHtml s → IsHtml t → IsHtml (s ++ t)
unfolding chars
IsHtml-append done g = g
IsHtml-append (character p h) g = character p (IsHtml-append h g)
IsHtml-append (ampersand h) g = ampersand (IsHtml-append h g)
IsHtml-append (less_than h) g = less_than (IsHtml-append h g)
IsHtml-append (greater_than h) g = greater_than (IsHtml-append h g)
IsHtml-append (element name attributes {inner} {t} n a i h) g =
    simp append_assoc (element name attributes n a i (IsHtml-append h g))
