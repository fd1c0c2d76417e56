-- ===== src/Inbox/Excerpt.antt =====
-- `bounded_monitor_text` of src/domain/loop_control.rs and the `str` methods that `push` calls.
use ah.Base.{
  ℕ, zero, suc, ◌-◌, ◌≤◌, ◌<◌, ◌≡◌, refl, Bool, true, false, ◌&&◌, ◌||◌, [], ◌∷◌, ◌++◌, none, some,
  arith, Text, bytes, ltb, leb, ◌==◌, if◌then◌else◌, length, get_elem?, take, length-append,
  length-take-le, inl, inr, Bool-cases, map, leb→le, ap, sym, ◌∙◌, ℕ_discrete, false≢true,
}

-- `str::is_char_boundary`: the ends, and every byte that is no UTF-8 continuation.
unfoldable pub is_char_boundary : Text → ℕ → Bool
is_char_boundary text zero = true
is_char_boundary text (suc i) = elim (get_elem? text (suc i)) [
  | none ↦ suc i == length text
  | some b ↦ ltb b 0x80 || leb 0xC0 b
]

-- `while !text.is_char_boundary(end) { end -= 1; }`
unfoldable pub floor_boundary : Text → ℕ → ℕ
floor_boundary text zero = zero
floor_boundary text (suc end) =
    let lower = floor_boundary text end in
    if is_char_boundary text (suc end) then suc end else lower

unfoldable pub truncated : Text
unfolding bytes
truncated = bytes "…[摘要已截断]"

unfoldable pub bounded_monitor_text : Text → ℕ → Text
bounded_monitor_text text max_bytes =
    if leb (length text) max_bytes
    then text
    else take (floor_boundary text (max_bytes - length truncated)) text ++ truncated

-- `str::lines().next()` of a text that is not empty: up to the first line feed, which takes one
-- carriage return before it along.
pub first_line : Text → Text
first_line [] = []
first_line (b ∷ []) = if b == 10 then [] else b ∷ []
first_line (b ∷ c ∷ t) =
    let rest = first_line (c ∷ t) in
    if b == 10 then [] else if (b == 13) && (c == 10) then [] else b ∷ rest

-- `str::replace('\n', " ")`.
pub replace_newlines : Text → Text
replace_newlines = map (λ b. if b == 10 then 32 else b)

length-truncated : length truncated ≡ 20
unfolding truncated bytes
length-truncated = refl

pub floor_boundary-le : (text : Text) (end : ℕ) → floor_boundary text end ≤ end
unfolding floor_boundary
floor_boundary-le text zero = omega arith
floor_boundary-le text (suc end) = ground (arith, floor_boundary-le text end)

-- The loop stops at a boundary, and no boundary up to the start of the search lies above it.
pub floor_boundary-greatest :
    (text : Text) (end : ℕ)
    → (is_char_boundary text (floor_boundary text end) ≡ true)
      × ((i : ℕ) → i ≤ end → is_char_boundary text i ≡ true → i ≤ floor_boundary text end)
unfolding floor_boundary is_char_boundary
floor_boundary-greatest text zero = (refl, λ i h b. h)
floor_boundary-greatest text (suc end) = elim (Bool-cases (is_char_boundary text (suc end))) [
  | inl e ↦ rw (e, floor_boundary) (e, λ i h b. h)
  | inr e ↦
      let (stop, top) = floor_boundary-greatest text end in
      rw (e, floor_boundary)
        (
          stop,
          λ i h b. elim (ℕ_discrete i (suc end)) [
            | yes p ↦ absurd (false≢true (sym e ∙ ap (is_char_boundary text) (sym p) ∙ b))
            | no p ↦ top i (omega arith) b
          ],
        )
]

-- An excerpt keeps to the limit, once the limit holds the truncation mark.
pub length-bounded_monitor_text :
    (text : Text) (limit : ℕ) → 20 ≤ limit → length (bounded_monitor_text text limit) ≤ limit
unfolding bounded_monitor_text
length-bounded_monitor_text text limit h = elim (Bool-cases (leb (length text) limit)) [
  | inl e ↦ rw e (leb→le _ _ e)
  | inr e ↦
      rw (e, length-append (take (floor_boundary text (limit - length truncated)) text) truncated)
        (omega (
          arith,
          length-truncated,
          length-take-le (floor_boundary text (limit - length truncated)) text,
          floor_boundary-le text (limit - length truncated),
        ))
]

-- The excerpt of a text that passes a limit of at least 20 bytes is a beginning of the text and the
-- truncation mark, within the limit; the cut lies on a character boundary, and behind every
-- boundary that leaves room for the mark.
pub bounded_monitor_text_cut :
    (text : Text) (limit i : ℕ)
    → 20 ≤ limit
    → limit < length text
    → i ≤ limit - 20
    → is_char_boundary text i ≡ true
    → (end : ℕ) × (bounded_monitor_text text limit ≡ take end text ++ truncated)
      × (is_char_boundary text end ≡ true)
      × (i ≤ end)
      × (length (bounded_monitor_text text limit) ≤ limit)
bounded_monitor_text_cut text limit i h over room b =
    let end = floor_boundary text (limit - length truncated) in
    let (stop, top) = floor_boundary-greatest text (limit - length truncated) in
    let long : leb (length text) limit ≡ false = ground arith in
    (
      end,
      unfold bounded_monitor_text in rw long refl,
      stop,
      top i (omega (arith, length-truncated)) b,
      length-bounded_monitor_text text limit h,
    )
