-- ===== src/Telegram/Chunks.antt =====
-- The chunks of `split_html_safely` in src/channels/telegram.rs.
use ah.Base.{
  ℕ, zero, suc, ◌+◌, ◌-◌, ◌<◌, ◌≤◌, ◌≡◌, refl, true, false, List, [], ◌∷◌, arith, ltb, leb, ◌==◌,
  Text, length, take, drop, inl, inr, Bool-cases, min, ltb→lt, leb→le, ◌⊎◌,
}
use ah.Inbox.Excerpt.{is_char_boundary, floor_boundary-le}
use ah.Telegram.{Chars, encode}
use ah.Telegram.Boundaries.{floor_boundary-progress}
use ah.Telegram.Cuts.{IsSplit, IsSplit-cons, whole-IsSplit, drop-length}
use ah.Telegram.Searching.{Ends, Cut, found, none_found, find_safe_split-Ends}
use ah.Telegram.Split.{
  Outcome, returned, panicked, unfinished, byte_slice, push_chunk, chunk_end, and_then,
  split_html_from, split_html_safely,
}

-- Some place of the text is inside a character.
pub record HasInside (html : Text) : Type 0 where
  pub place : ℕ
  pub place_in_range : place ≤ length html
  pub place_inside : is_char_boundary html place ≡ false

byte_slice-Ends :
    (html : Text) (start end : ℕ)
    → start ≤ end
    → end ≤ length html
    → is_char_boundary html start ≡ true
    → Ends
        (λ part. (part ≡ take (end - start) (drop start html)) × (is_char_boundary html end ≡ true))
        (HasInside html)
        (byte_slice html start end)
unfolding byte_slice
byte_slice-Ends html start end h range b =
    let order : leb start end ≡ true = ground arith in
    elim (Bool-cases (is_char_boundary html end)) [
      | inl e ↦ rw (order, b, e) (refl, refl)
      | inr e ↦ rw (order, b, e) (record { place = end; place_in_range = range; place_inside = e })
    ]

byte_slice-Unit :
    (Q : Type 0) (P : Text → Type 0) (o : Outcome Text) → Ends P Q o → Ends (λ part. Unit) Q o
byte_slice-Unit Q P (returned part) e = tt
byte_slice-Unit Q P panicked e = e
byte_slice-Unit Q P unfinished e = e

is_boundary_slice :
    (html : Text) (start end : ℕ)
    → start ≤ end
    → end ≤ length html
    → is_char_boundary html start ≡ true
    → Ends (λ part. Unit) (HasInside html) (byte_slice html start end)
is_boundary_slice html start end h range b =
    byte_slice-Unit (HasInside html)
      (λ part. (part ≡ take (end - start) (drop start html)) × (is_char_boundary html end ≡ true))
      (byte_slice html start end) (byte_slice-Ends html start end h range b)

push_chunk-Ends :
    (Q : Type 0) (P : Text → Type 0) (R S : List Text → Type 0) (o : Outcome Text)
    (rest : Outcome (List Text))
    → Ends P Q o
    → ((part : Text) → P part → Ends R Q rest)
    → ((part : Text) (chunks : List Text) → P part → R chunks → S (part ∷ chunks))
    → Ends S Q (push_chunk o rest)
unfolding push_chunk
push_chunk-Ends Q P R S (returned part) (returned chunks) e f g = g part chunks e (f part e)
push_chunk-Ends Q P R S (returned part) panicked e f g = f part e
push_chunk-Ends Q P R S (returned part) unfinished e f g = f part e
push_chunk-Ends Q P R S panicked rest e f g = e
push_chunk-Ends Q P R S unfinished rest e f g = e

and_then-Ends :
    (Q : Type 0) (P : ℕ → Type 0) (R : List Text → Type 0) (next : ℕ → Outcome (List Text))
    (o : Outcome ℕ)
    → Ends P Q o
    → ((n : ℕ) → P n → Ends R Q (next n))
    → Ends R Q (and_then next o)
unfolding and_then
and_then-Ends Q P R next (returned n) e f = f n e
and_then-Ends Q P R next panicked e f = e
and_then-Ends Q P R next unfinished e f = e

-- A chunk ends behind its start, within the limit.
chunk_end-range :
    (cs : Chars) (max_len start split_at : ℕ)
    → 4 ≤ max_len
    → start < length (encode cs)
    → Cut (encode cs) start (min (start + max_len) (length (encode cs))) split_at
    → (start < chunk_end (encode cs) start (start + max_len) split_at)
      × (chunk_end (encode cs) start (start + max_len) split_at ≤ start + max_len)
      × (chunk_end (encode cs) start (start + max_len) split_at ≤ length (encode cs))
unfolding chunk_end
chunk_end-range cs max_len start split_at h range (found c) =
    let low = c.behind in
    let high = c.in_range in
    let other : (split_at == start) ≡ false = ground arith in
    rw other (low, ground arith, ground arith)
chunk_end-range cs max_len start split_at h range (none_found p none') =
    let text = encode cs in
    let target = min (start + max_len) (length text) in
    let same : (split_at == start) ≡ true = ground arith in
    let low = floor_boundary-progress cs max_len start target h range refl in
    let high = floor_boundary-le text target in rw same (low, ground arith, ground arith)

-- A round that takes the chunk from `start` to `end`.
chunk-Ends :
    (html : Text) (max_len start end : ℕ) (rest : Outcome (List Text))
    → start < end
    → end ≤ start + max_len
    → end ≤ length html
    → is_char_boundary html start ≡ true
    → (is_char_boundary html end ≡ true
        → Ends (IsSplit max_len (drop end html)) (HasInside html) rest)
    → Ends
        (IsSplit max_len (drop start html))
        (HasInside html)
        (push_chunk (byte_slice html start end) rest)
chunk-Ends html max_len start end rest low small high b next =
    push_chunk-Ends (HasInside html) _ (IsSplit max_len (drop end html)) _ _ rest
      (byte_slice-Ends html start end (omega arith) high b) (λ part p. next p.1)
      (λ part chunks p s. rw (p.0) (IsSplit-cons max_len start end html chunks low small high s))

split_html_from-Ends :
    (f : ℕ) (cs : Chars) (max_len start : ℕ)
    → 4 ≤ max_len
    → start ≤ length (encode cs)
    → length (encode cs) < f + start
    → is_char_boundary (encode cs) start ≡ true
    → Ends
        (IsSplit max_len (drop start (encode cs)))
        (HasInside (encode cs))
        (split_html_from f (encode cs) max_len start)
unfolding split_html_from
split_html_from-Ends zero cs max_len start h range fuel b = absurd (omega arith)
split_html_from-Ends (suc f) cs max_len start h range fuel b =
    let text = encode cs in
    elim (Bool-cases (ltb start (length text))) [
      | inr e ↦
          let at_end : start ≡ length text = ground arith in
          rw (split_html_from, e, at_end, drop-length text) (record { whole = refl; limited = tt })
      | inl e ↦ elim (Bool-cases (leb (length text - start) max_len)) [
        | inl g ↦
            rw (split_html_from, e, g)
              (chunk-Ends text max_len start (length text) (returned []) (ltb→lt _ _ e)
                (ground arith) (omega arith) b
                λ stop. rw (drop-length text) (record { whole = refl; limited = tt }))
        | inr g ↦
            let target = min (start + max_len) (length text) in
            let reach = is_boundary_slice text start target (ground arith) (ground arith) b in
            rw (split_html_from, e, g)
              (and_then-Ends (HasInside text) (Cut text start target) _ _ _
                (find_safe_split-Ends (HasInside text) text start (start + max_len) (ground arith)
                  reach)
                λ split_at cut.
                  let (low, small, high) =
                    chunk_end-range cs max_len start split_at h (ltb→lt _ _ e) cut in
                  chunk-Ends text max_len start _ _ low small high b
                    λ stop. split_html_from-Ends f cs max_len _ h high (omega arith) stop)
      ]
    ]

Ends-cases :
    {A : Type 0} (P : A → Type 0) (Q : Type 0) (o : Outcome A)
    → Ends P Q o
    → ((a : A) × (o ≡ returned a) × P a) ⊎ ((o ≡ panicked) × Q)
Ends-cases P Q (returned a) e = inl (a, refl, e)
Ends-cases P Q panicked e = inr (refl, e)
Ends-cases P Q unfinished e = absurd e

-- Splitting an HTML text that is not empty, of any characters, into chunks of at most `max_len`
-- bytes, 4 or more, ends: either with chunks that put together are the text, none of them empty and
-- none beyond the limit, or in a panic, and then some place of the text is inside a character.
pub split_html_safely-IsSplit :
    (cs : Chars) (max_len : ℕ)
    → 4 ≤ max_len
    → 0 < length (encode cs)
    → ((chunks : List Text) × (split_html_safely (encode cs) max_len ≡ returned chunks)
        × IsSplit max_len (encode cs) chunks)
      ⊎ ((split_html_safely (encode cs) max_len ≡ panicked) × HasInside (encode cs))
unfolding split_html_safely is_char_boundary
split_html_safely-IsSplit cs max_len h full = elim (Bool-cases (leb (length (encode cs)) max_len)) [
  | inl e ↦
      rw (split_html_safely, e)
        (inl (_, refl, whole-IsSplit max_len (encode cs) full (leb→le _ _ e)))
  | inr e ↦
      rw (split_html_safely, e)
        (Ends-cases (IsSplit max_len (encode cs)) (HasInside (encode cs)) _ (
          split_html_from-Ends (length (encode cs) + 1) cs max_len 0 h (omega arith) (omega arith)
            refl))
]
