-- ===== src/Telegram/Searching.antt =====
-- `find_safe_split` of src/channels/telegram.rs: where a chunk of HTML is cut.
use ah.Base.{
  ℕ, zero, suc, ◌+◌, ◌-◌, ◌<◌, ◌≤◌, ◌≡◌, refl, true, false, ◌&&◌, ◌||◌, List, [], ◌∷◌, Option, none,
  some, arith, leb, ◌==◌, Text, length, starts_with, inl, inr, Bool-cases, ℕ_discrete, subst, min,
  All,
}
use ah.Inbox.Excerpt.{is_char_boundary}
use ah.Telegram.Split.{
  Outcome, returned, panicked, unfinished, byte_slice, is_outside_tag, match_indices, last_outside,
  find_best_split, sentence_ends, find_sentence_split, last_cut, or_return, find_safe_split,
  search_part,
}

-- An outcome: what holds of the value, and what a panic shows. It is never `unfinished`.
abbrev pub Ends {ℓ} : {A : Type ℓ} → (A → Type 0) → Type 0 → Outcome A → Type 0
Ends P Q (returned a) = P a
Ends P Q panicked = Q
Ends P Q unfinished = ⊥

-- A cut behind `start`, at most at `target_end`, outside every tag.
pub record IsCut (html : Text) (start target_end idx : ℕ) : Type 0 where
  pub behind : start < idx
  pub in_range : idx ≤ target_end
  pub outside : is_outside_tag html idx ≡ true

abbrev pub CutOption : Text → ℕ → ℕ → Option ℕ → Type 0
CutOption html start target_end none = Unit
CutOption html start target_end (some idx) = IsCut html start target_end idx

match_indices-from :
    (pattern' : Text) (skip index start : ℕ) (t : Text)
    → start ≤ index
    → All (λ i. start ≤ i) (match_indices pattern' skip index t)
unfolding match_indices
match_indices-from pattern' skip index start [] h = tt
match_indices-from pattern' (suc skip) index start (b ∷ t) h =
    match_indices-from pattern' skip (suc index) start t (omega arith)
match_indices-from pattern' zero index start (b ∷ t) h =
    let found = starts_with (b ∷ t) pattern' in
    elim (Bool-cases found) [
      | inl e ↦
          rw (match_indices, e) (h, match_indices-from pattern' _ (suc index) start t (omega arith))
      | inr e ↦
          rw (match_indices, e) (match_indices-from pattern' _ (suc index) start t (omega arith))
    ]

sentence_ends-from :
    (index start : ℕ) (t : Text) → start ≤ index → All (λ i. start ≤ i) (sentence_ends index t)
unfolding sentence_ends
sentence_ends-from index start [] h = tt
sentence_ends-from index start (b ∷ t) h = elim (Bool-cases (b == b'.' || b == b'!' || b == b'?')) [
  | inl e ↦ rw (sentence_ends, e) (h, sentence_ends-from (suc index) start t (omega arith))
  | inr e ↦ rw (sentence_ends, e) (sentence_ends-from (suc index) start t (omega arith))
]

last_outside-CutOption :
    (html : Text) (start target_end offset : ℕ) (idxs : List ℕ) (best : Option ℕ)
    → 1 ≤ offset
    → CutOption html start target_end best
    → All (λ i. start ≤ i) idxs
    → CutOption html start target_end (last_outside html target_end offset best idxs)
unfolding last_outside
last_outside-CutOption html start target_end offset [] best h c a = c
last_outside-CutOption html start target_end offset (idx ∷ idxs) best h c (low, a) =
    elim (Bool-cases (leb (idx + offset) target_end && is_outside_tag html (idx + offset))) [
      | inl e ↦
          let cut : IsCut html start target_end (idx + offset) = record {
            behind = omega arith;
            in_range = ground arith;
            outside = ground arith;
          } in
          rw (last_outside, e) (last_outside-CutOption html start target_end offset idxs _ h cut a)
      | inr e ↦
          rw (last_outside, e) (last_outside-CutOption html start target_end offset idxs best h c a)
    ]

-- What a cut is to be: one found, or the start when there is none.
pub data Cut (html : Text) (start target_end idx : ℕ) : Type 0 where
  found : IsCut html start target_end idx → Cut html start target_end idx
  none_found :
      idx ≡ start
      → ((i : ℕ)
          → start < i
          → i ≤ target_end
          → (is_char_boundary html i && is_outside_tag html i) ≡ false)
      → Cut html start target_end idx

search_part-Ends :
    (Q : Type 0) (P : Option ℕ → Type 0) (look : Text → Option ℕ) (o : Outcome Text)
    → ((part : Text) → P (look part))
    → Ends (λ part. Unit) Q o
    → Ends P Q (search_part look o)
unfolding search_part
search_part-Ends Q P look (returned part) h e = h part
search_part-Ends Q P look panicked h e = e
search_part-Ends Q P look unfinished h e = e

find_best_split-Ends :
    (Q : Type 0) (html : Text) (start target_end : ℕ) (pattern' : Text) (offset : ℕ)
    → 1 ≤ offset
    → Ends (λ part. Unit) Q (byte_slice html start target_end)
    → Ends
        (CutOption html start target_end)
        Q
        (find_best_split html start target_end pattern' offset)
unfolding find_best_split
find_best_split-Ends Q html start target_end pattern' offset h e =
    search_part-Ends Q (CutOption html start target_end) _ _
      (λ part.
        last_outside-CutOption html start target_end offset _ none h tt
          (match_indices-from pattern' 0 start start part (omega arith)))
      e

find_sentence_split-Ends :
    (Q : Type 0) (html : Text) (start target_end : ℕ)
    → Ends (λ part. Unit) Q (byte_slice html start target_end)
    → Ends (CutOption html start target_end) Q (find_sentence_split html start target_end)
unfolding find_sentence_split
find_sentence_split-Ends Q html start target_end e =
    search_part-Ends Q (CutOption html start target_end) _ _
      (λ part.
        last_outside-CutOption html start target_end 1 _ none (omega arith) tt
          (sentence_ends-from start start part (omega arith)))
      e

or_return-Ends :
    (Q : Type 0) (html : Text) (start target_end : ℕ) (o : Outcome (Option ℕ)) (next : Outcome ℕ)
    → Ends (CutOption html start target_end) Q o
    → Ends (Cut html start target_end) Q next
    → Ends (Cut html start target_end) Q (or_return o next)
unfolding or_return
or_return-Ends Q html start target_end (returned none) next e f = f
or_return-Ends Q html start target_end (returned (some idx)) next e f = found e
or_return-Ends Q html start target_end panicked next e f = e
or_return-Ends Q html start target_end unfinished next e f = e

-- A place that is no cut at the end of the range changes nothing.
wider :
    (html : Text) (start n idx : ℕ)
    → (is_char_boundary html (start + suc n) && is_outside_tag html (start + suc n)) ≡ false
    → Cut html start (start + n) idx
    → Cut html start (start + suc n) idx
wider html start n idx e (found c) =
    found (record { behind = c.behind; in_range = ground (arith, c.in_range); outside = c.outside })
wider html start n idx e (none_found p none') = none_found p (λ i low high.
    elim (ℕ_discrete i (start + suc n)) [ yes q ↦ rw q e | no q ↦ none' i low (omega arith) ])

last_cut-Cut : (html : Text) (start n : ℕ) → Cut html start (start + n) (last_cut html start n)
unfolding last_cut
last_cut-Cut html start zero = none_found refl (λ i low high. absurd (omega arith))
last_cut-Cut html start (suc n) =
    let here = is_char_boundary html (start + suc n) && is_outside_tag html (start + suc n) in
    elim (Bool-cases here) [
      | inl e ↦
          rw (last_cut, e)
            (found
              (record { behind = omega arith; in_range = omega arith; outside = ground arith }))
      | inr e ↦ rw (last_cut, e) (wider html start n _ e (last_cut-Cut html start n))
    ]

-- The search ends in a cut, or panics where a slice does.
pub find_safe_split-Ends :
    (Q : Type 0) (html : Text) (start target : ℕ)
    → start ≤ min target (length html)
    → Ends (λ part. Unit) Q (byte_slice html start (min target (length html)))
    → Ends (Cut html start (min target (length html))) Q (find_safe_split html start target)
unfolding find_safe_split
find_safe_split-Ends Q html start target range e =
    let end = min target (length html) in
    or_return-Ends Q html start end _ _ (find_best_split-Ends Q html start end _ 2 (omega arith) e)
      (or_return-Ends Q html start end _ _ (find_sentence_split-Ends Q html start end e) (
        or_return-Ends Q html start end _ _
          (find_best_split-Ends Q html start end _ 1 (omega arith) e)
          (subst (λ n. Cut html start n (last_cut html start (end - start))) (omega arith)
            (last_cut-Cut html start (end - start)))))
