-- ===== src/Telegram/Panics.antt =====
-- Where `split_html_safely` of src/channels/telegram.rs panics.
use ah.Base.{ℕ, suc, ◌+◌, ◌-◌, ◌<◌, ◌≡◌, refl, true, false, arith, ltb, leb, Text, length, min}
use ah.Inbox.Excerpt.{is_char_boundary}
use ah.Telegram.Split.{
  panicked, byte_slice, search_part, or_return, find_best_split, find_safe_split, and_then,
  split_html_from, split_html_safely,
}

byte_slice-panicked :
    (text : Text) (start end : ℕ)
    → is_char_boundary text end ≡ false
    → byte_slice text start end ≡ panicked
unfolding byte_slice
byte_slice-panicked text start end h = ground arith

find_safe_split-panicked :
    (html : Text) (start target : ℕ)
    → is_char_boundary html (min target (length html)) ≡ false
    → find_safe_split html start target ≡ panicked
unfolding find_safe_split or_return find_best_split search_part
find_safe_split-panicked html start target h =
    rw (byte_slice-panicked html start (min target (length html)) h) refl

split_html_from-panicked :
    (f : ℕ) (html : Text) (max_len : ℕ)
    → max_len < length html
    → is_char_boundary html max_len ≡ false
    → split_html_from (suc f) html max_len 0 ≡ panicked
unfolding split_html_from and_then
split_html_from-panicked f html max_len over inside =
    let here : ltb 0 (length html) ≡ true = ground arith in
    let long : leb (length html - 0) max_len ≡ false = ground arith in
    let place : min (0 + max_len) (length html) ≡ max_len = ground arith in
    let cut = find_safe_split-panicked html 0 (0 + max_len) (rw place inside) in
    rw (split_html_from, here, long, cut) refl

-- A text that is longer than the limit panics when the byte at the limit is inside a character: the
-- searches slice the text there.
pub split_html_safely-panicked :
    (html : Text) (max_len : ℕ)
    → max_len < length html
    → is_char_boundary html max_len ≡ false
    → split_html_safely html max_len ≡ panicked
unfolding split_html_safely
split_html_safely-panicked html max_len over inside =
    let long : leb (length html) max_len ≡ false = ground arith in
    let fuel : length html + 1 ≡ suc (length html) = omega arith in
    rw (split_html_safely, long, fuel)
      (split_html_from-panicked (length html) html max_len over inside)
