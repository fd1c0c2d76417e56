-- ===== src/Telegram/Cuts.antt =====
-- The chunks of `split_text` and `split_html_safely` in src/channels/telegram.rs.
use ah.Base.{
  ℕ, zero, suc, ◌+◌, ◌-◌, ◌<◌, ◌≤◌, ◌≡◌, refl, ap, ◌∙◌, true, List, [], ◌∷◌, arith, ltb, leb, Text,
  length, take, drop, take-drop, inl, inr, Bool-cases, min, All, concat, length-drop, length-take,
  drop-drop, append-nil, ltb→lt, leb→le,
}
use ah.Inbox.Excerpt.{is_char_boundary, floor_boundary, floor_boundary-greatest, floor_boundary-le}
use ah.Telegram.{Chars, encode}
use ah.Telegram.Boundaries.{floor_boundary-progress}
use ah.Telegram.Split.{returned, byte_slice, push_chunk, split_text_from, split_text}

-- A chunk that says something, within the limit.
pub record IsChunk (max_len : ℕ) (chunk : Text) : Type 0 where
  pub filled : 0 < length chunk
  pub bounded : length chunk ≤ max_len

-- The chunks put together are the text, and each is a chunk.
pub record IsSplit (max_len : ℕ) (text : Text) (chunks : List Text) : Type 0 where
  pub whole : concat chunks ≡ text
  pub limited : All (IsChunk max_len) chunks

pub drop-length : (t : Text) → drop (length t) t ≡ []
drop-length [] = refl
drop-length (b ∷ t) = drop-length t

-- A chunk at the front of what is left.
pub IsSplit-cons :
    (max_len start end : ℕ) (text : Text) (chunks : List Text)
    → start < end
    → end ≤ start + max_len
    → end ≤ length text
    → IsSplit max_len (drop end text) chunks
    → IsSplit max_len (drop start text) (take (end - start) (drop start text) ∷ chunks)
IsSplit-cons max_len start end text chunks h small range s =
    let chunk = take (end - start) (drop start text) in
    let size : length chunk ≡ end - start =
      omega (arith, length-take (end - start) (drop start text), length-drop start text) in
    let rest : drop (end - start) (drop start text) ≡ drop end text =
      drop-drop start (end - start) text ∙ ap (λ n. drop n text) (omega arith) in
    record {
      whole = rw (s.whole, ← rest) (take-drop (end - start) (drop start text));
      limited = (record { filled = omega arith; bounded = omega arith }, s.limited);
    }

pub whole-IsSplit :
    (max_len : ℕ) (text : Text)
    → 0 < length text
    → length text ≤ max_len
    → IsSplit max_len text (text ∷ [])
whole-IsSplit max_len text h small = record {
  whole = append-nil text;
  limited = (record { filled = h; bounded = small }, tt);
}

byte_slice-boundaries :
    (text : Text) (start end : ℕ)
    → start ≤ end
    → is_char_boundary text start ≡ true
    → is_char_boundary text end ≡ true
    → byte_slice text start end ≡ returned (take (end - start) (drop start text))
unfolding byte_slice
byte_slice-boundaries text start end h b c = ground arith

split_text_from-IsSplit :
    (f : ℕ) (cs : Chars) (max_len start : ℕ)
    → 4 ≤ max_len
    → start ≤ length (encode cs)
    → length (encode cs) < f + start
    → is_char_boundary (encode cs) start ≡ true
    → (chunks : List Text) × (split_text_from f (encode cs) max_len start ≡ returned chunks)
      × IsSplit max_len (drop start (encode cs)) chunks
unfolding split_text_from push_chunk
split_text_from-IsSplit zero cs max_len start h range fuel b = absurd (omega arith)
split_text_from-IsSplit (suc f) cs max_len start h range fuel b =
    let text = encode cs in
    let end = floor_boundary text (min (start + max_len) (length text)) in
    elim (Bool-cases (ltb start (length text))) [
      | inr e ↦
          let at_end : start ≡ length text = ground arith in
          rw (split_text_from, e)
            ([], refl, rw (at_end, drop-length text) (record { whole = refl; limited = tt }))
      | inl e ↦
          let progress = floor_boundary-progress cs max_len start _ h (ltb→lt _ _ e) refl in
          let low = floor_boundary-le text (min (start + max_len) (length text)) in
          let (stop, _) = floor_boundary-greatest text (min (start + max_len) (length text)) in
          let (chunks, p, s) =
            split_text_from-IsSplit f cs max_len end h (ground arith) (ground arith) stop in
          rw (split_text_from, e, byte_slice-boundaries text start end (omega arith) b stop, p)
            (
              _,
              refl,
              IsSplit-cons max_len start end text chunks progress (ground arith) (ground arith) s,
            )
    ]

-- Splitting a text that is not empty, of any characters, into chunks of at most `max_len` bytes, 4 or
-- more, ends without a panic: the chunks put together are the text, none is empty and none passes
-- the limit.
pub split_text-IsSplit :
    (cs : Chars) (max_len : ℕ)
    → 4 ≤ max_len
    → 0 < length (encode cs)
    → (chunks : List Text) × (split_text (encode cs) max_len ≡ returned chunks)
      × IsSplit max_len (encode cs) chunks
unfolding split_text is_char_boundary
split_text-IsSplit cs max_len h full = elim (Bool-cases (leb (length (encode cs)) max_len)) [
  | inl e ↦ rw (split_text, e) (_, refl, whole-IsSplit max_len (encode cs) full (leb→le _ _ e))
  | inr e ↦
      rw (split_text, e)
        (split_text_from-IsSplit (length (encode cs) + 1) cs max_len 0 h (omega arith) (omega arith)
          refl)
]
