-- ===== src/Telegram/Searches.antt =====
-- Where the searches of `markdown_to_telegram_html` in src/channels/telegram.rs stop.
use ah.Base.{
  ℕ, suc, ◌+◌, ◌-◌, ◌<◌, ◌≤◌, ◌≡◌, [], ◌∷◌, some, arith, leb, ◌==◌, inl, inr, Bool-cases, length,
  drop, length-take-le, length-drop,
}
use ah.Telegram.{Chars}
use ah.Telegram.Markdown.{slice, find_char, find_closing_single, find_pair, find_closing_pair}

pub find_char-bound :
    (c : ℕ) (t : Chars) (start j : ℕ)
    → find_char c t start ≡ some j
    → (start ≤ j) × (j < start + length t)
unfolding find_char
find_char-bound c [] start j h = ground arith
find_char-bound c (d ∷ t) start j h = elim (Bool-cases (d == c)) [
  | inl e ↦ ground arith
  | inr e ↦
      let (low, high) = find_char-bound c t (suc start) j (ground arith) in
      (omega arith, omega arith)
]

find_pair-bound :
    (a b : ℕ) (t : Chars) (start j : ℕ)
    → find_pair a b t start ≡ some j
    → (start ≤ j) × (j + 1 < start + length t)
unfolding find_pair
find_pair-bound a b [] start j h = ground arith
find_pair-bound a b (c ∷ []) start j h = ground arith
find_pair-bound a b (c ∷ d ∷ t) start j h =
    ground (arith, find_pair-bound a b (d ∷ t) (suc start) j)

pub length-slice : (start end : ℕ) (text : Chars) → length (slice start end text) ≤ end - start
unfolding slice
length-slice start end text = length-take-le (end - start) (drop start text)

pub find_closing_single-bound :
    (text : Chars) (start m j : ℕ)
    → find_closing_single text start m ≡ some j
    → (start ≤ j) × (j < length text)
unfolding find_closing_single
find_closing_single-bound text start m j h =
    let (low, high) = find_char-bound m (drop start text) start j h in
    (low, omega (arith, length-drop start text))

pub find_closing_pair-bound :
    (text : Chars) (start a b j : ℕ)
    → find_closing_pair text start a b ≡ some j
    → (start ≤ j) × (j < length text)
unfolding find_closing_pair
find_closing_pair-bound text start a b j h = elim (Bool-cases (leb (length text) (start + 1))) [
  | inl e ↦ ground arith
  | inr e ↦
      let (low, high) = find_pair-bound a b (drop start text) start j (ground arith) in
      (low, omega (arith, length-drop start text))
]
