-- ===== src/Telegram/Boundaries.antt =====
-- The character boundaries of a `str`, for the splitting in src/channels/telegram.rs.
use ah.Base.{
  ℕ, zero, suc, ◌+◌, ◌-◌, ◌<◌, ◌≤◌, ◌≡◌, refl, Bool, true, false, ◌||◌, [], ◌∷◌, ◌++◌, Option, none,
  some, arith, ltb, leb, Text, utf8, length, length-append, get_elem?, inl, inr, dec_lt, min,
  Option-cases, false≢true,
}
use ah.Inbox.Excerpt.{is_char_boundary, floor_boundary, floor_boundary-greatest}
use ah.Telegram.{Chars, encode}

-- A byte that starts a character.
abbrev is_lead : Option ℕ → Bool
is_lead none = false
is_lead (some b) = ltb b 0x80 || leb 0xC0 b

length-utf8 : (c : ℕ) → length (utf8 c) ≤ 4
unfolding utf8
length-utf8 c = ground arith

utf8-lead : (c : ℕ) (t : Text) → is_lead (get_elem? (utf8 c ++ t) 0) ≡ true
unfolding utf8
utf8-lead c t = ground arith

get_elem?-append : (s t : Text) (i : ℕ) → get_elem? (s ++ t) (length s + i) ≡ get_elem? t i
get_elem?-append [] t i = let e : 0 + i ≡ i = omega arith in rw e refl
get_elem?-append (b ∷ s) t i =
    let e : suc (length s) + i ≡ suc (length s + i) = omega arith in rw e (get_elem?-append s t i)

-- Behind every byte of a `str`, or at it, there is one within four bytes that starts a character.
lead_within :
    (cs : Chars) (i : ℕ)
    → i < length (encode cs)
    → (j : ℕ) × (j ≤ i) × (i ≤ j + 3) × (is_lead (get_elem? (encode cs) j) ≡ true)
unfolding encode
lead_within [] i h = absurd (omega arith)
lead_within (c ∷ t) i h = elim (dec_lt i (length (utf8 c))) [
  | yes p ↦ (0, omega arith, omega (arith, length-utf8 c), utf8-lead c (encode t))
  | no p ↦
      let (j, low, high, lead) =
        lead_within t (i - length (utf8 c)) (omega (arith, length-append (utf8 c) (encode t))) in
      (
        length (utf8 c) + j,
        omega arith,
        omega arith,
        rw (get_elem?-append (utf8 c) (encode t) j) lead,
      )
]

is_lead-is_char_boundary :
    (text : Text) (i : ℕ) → is_lead (get_elem? text i) ≡ true → is_char_boundary text i ≡ true
unfolding is_char_boundary
is_lead-is_char_boundary text zero h = refl
is_lead-is_char_boundary text (suc i) h = elim (Option-cases (get_elem? text (suc i))) [
  | inl e ↦ absurd (false≢true (rw e at h))
  | inr (b, e) ↦ rw (is_char_boundary, e) (rw e at h)
]

get_elem?-length : (text : Text) → get_elem? text (length text) ≡ none
get_elem?-length [] = refl
get_elem?-length (b ∷ t) = get_elem?-length t

pub is_char_boundary-length : (text : Text) → is_char_boundary text (length text) ≡ true
unfolding is_char_boundary
is_char_boundary-length [] = refl
is_char_boundary-length (b ∷ t) = rw (is_char_boundary, get_elem?-length t) (ground arith)

-- The end that `split_text` and `split_html_safely` take, at most `max_len` bytes on, lies behind the
-- start, and on a boundary.
pub floor_boundary-progress :
    (cs : Chars) (max_len start end : ℕ)
    → 4 ≤ max_len
    → start < length (encode cs)
    → end ≡ min (start + max_len) (length (encode cs))
    → start < floor_boundary (encode cs) end
floor_boundary-progress cs max_len start end h range e =
    let text = encode cs in
    let (stop, top) = floor_boundary-greatest text end in
    elim (dec_lt (start + 4) (length text)) [
      | yes p ↦
          let (j, low, high, lead) = lead_within cs (start + 4) p in
          let found = top j (ground arith) (is_lead-is_char_boundary text j lead) in omega arith
      | no p ↦
          let found = top (length text) (ground arith) (is_char_boundary-length text) in omega arith
    ]
