-- ===== src/Telegram/Convert.antt =====
-- `markdown_to_telegram_html` of src/channels/telegram.rs ends, and writes HTML.
use ah.Base.{
  ℕ, zero, suc, ◌+◌, ◌<◌, ◌≡◌, refl, ap, subst, [], ◌++◌, Option, some, arith, ltb, append_assoc,
  append-nil, inl, inr, Bool-cases, length, ltb→lt,
}
use ah.Telegram.{Chars}
use ah.Telegram.Html.{IsHtml, done, element, IsHtml-append}
use ah.Telegram.Markdown.{
  Piece, verbatim, wrapped, piece, assemble, round, convert, markdown_to_telegram_html,
}
use ah.Telegram.Rules.{Fits, otherwise-Fits, IsPair}
use ah.Telegram.Spans.{bold-Fits, italic-Fits, strikethrough-Fits, inline_code-Fits}
use ah.Telegram.Elements.{link-Fits, heading-Fits, plain-Fits, fenced-Fits}

piece-Fits : (text : Chars) (i : ℕ) → Fits text i (piece text i)
unfolding piece
piece-Fits text i = otherwise-Fits text i _ _ (fenced-Fits text i) (
    otherwise-Fits text i _ _ (inline_code-Fits text i) (
      otherwise-Fits text i _ _ (bold-Fits text i) (
        otherwise-Fits text i _ _ (italic-Fits text i) (
          otherwise-Fits text i _ _ (strikethrough-Fits text i) (
            otherwise-Fits text i _ _ (link-Fits text i)
              (otherwise-Fits text i _ _ (heading-Fits text i) (plain-Fits text i)))))))

-- What a conversion has to give.
abbrev Writes : Option Chars → Type 0
Writes o = (html : Chars) × (o ≡ some html) × IsHtml html

assemble-verbatim :
    (out : Chars) (rest : Option Chars)
    → IsHtml out
    → Writes rest
    → Writes (assemble out (some []) [] rest)
unfolding assemble
assemble-verbatim out rest h (b, f, g) =
    rw f (out ++ b, ap some (simp append-nil), IsHtml-append h g)

assemble-pair :
    (left right : Chars) (inner rest : Option Chars)
    → IsPair left right
    → Writes inner
    → Writes rest
    → Writes (assemble left inner right rest)
unfolding assemble
assemble-pair left right inner rest pair (a, e, h) (b, f, g) =
    rw (e, f)
      (
        left ++ a ++ right ++ b,
        refl,
        rw (pair.opening, pair.closing)
            (subst IsHtml (simp append_assoc) (element pair.name [] pair.tag_chars tt h g)),
      )

round-IsHtml :
    (again : Chars → ℕ → Option Chars) (text : Chars) (i : ℕ) (p : Piece)
    → Fits text i p
    → ((t : Chars) (j : ℕ) → length t + i < length text + j → Writes (again t j))
    → Writes (round again text p)
unfolding round
round-IsHtml again text i (verbatim out next) (low, h) ih =
    assemble-verbatim out _ h (ih text next (omega arith))
round-IsHtml again text i (wrapped left inner right next) (low, small, pair) ih =
    assemble-pair left right _ _ pair (ih inner 0 (omega arith)) (ih text next (omega arith))

convert-IsHtml :
    (f : ℕ) (text : Chars) (i : ℕ) → 0 < f → length text < f + i → Writes (convert f text i)
unfolding convert
convert-IsHtml zero text i p h = absurd (omega arith)
convert-IsHtml (suc f) text i p h = elim (Bool-cases (ltb i (length text))) [
  | inr e ↦ rw (convert, e) ([], refl, done)
  | inl e ↦
      let range = ltb→lt _ _ e in
      rw (convert, e)
        (round-IsHtml (convert f) text i (piece text i) (piece-Fits text i)
          λ t j small. convert-IsHtml f t j (omega arith) (omega arith))
]

-- The conversion of every text ends, each round going on behind the last and each recursion taking
-- less than what is left, and gives HTML in which `<`, `>` and `&` only occur in tags and entities,
-- every tag is closed, and the tags nest.
pub markdown_to_telegram_html-IsHtml :
    (text : Chars) → (html : Chars) × (markdown_to_telegram_html text ≡ some html) × IsHtml html
unfolding markdown_to_telegram_html
markdown_to_telegram_html-IsHtml text =
    convert-IsHtml (length text + 1) text 0 (omega arith) (omega arith)
