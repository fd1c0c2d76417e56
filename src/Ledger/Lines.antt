-- ===== src/Ledger/Lines.antt =====
-- `BufRead::lines` on the bytes of a file, and the file with a line added.
use ah.Base.{
  ℕ, ◌≡◌, refl, sym, ap, ◌∙◌, Bool, true, false, not, List, [], ◌∷◌, ◌++◌, map, append-nil,
  append_assoc, Option, none, some, Text, ◌==◌, if◌then◌else◌, All, Bool-cases, Option-cases, inl,
  inr,
}

abbrev is_empty : Text → Bool
is_empty [] = true
is_empty (b ∷ bs) = false

-- A line loses the carriage return in front of its end.
unfoldable pub strip_cr : Text → Text
strip_cr [] = []
strip_cr (b ∷ []) = if b == 13 then [] else b ∷ []
strip_cr (b ∷ c ∷ bs) = b ∷ strip_cr (c ∷ bs)

-- `line` is what has been read of the current line.
unfoldable pub lines_from : Text → Text → List Text
lines_from line [] = if is_empty line then [] else line ∷ []
lines_from line (b ∷ bs) =
    if b == 10 then strip_cr line ∷ lines_from [] bs else lines_from (line ++ b ∷ []) bs

unfoldable pub lines : Text → List Text
lines = lines_from []

unfoldable pub last_byte : Text → Option ℕ
last_byte [] = none
last_byte (b ∷ bs) = elim (last_byte bs) [ none ↦ some b | some c ↦ some c ]

-- The file is not empty and does not end with a newline.
unfoldable pub unterminated : Text → Bool
unterminated file = elim (last_byte file) [ none ↦ false | some b ↦ not (b == 10) ]

-- The same in one pass, from a line that is begun or not.
abbrev open_line : Bool → Text → Bool
open_line begun [] = begun
open_line begun (b ∷ bs) = open_line (not (b == 10)) bs

open_line-last :
    (begun : Bool) (file : Text)
    → open_line begun file ≡ elim (last_byte file) [ none ↦ begun | some b ↦ not (b == 10) ]
unfolding last_byte
open_line-last begun [] = refl
open_line-last begun (b ∷ bs) = elim (Option-cases (last_byte bs)) [
  | inl e ↦ open_line-last (not (b == 10)) bs ∙ rw (last_byte, e) refl
  | inr (c, e) ↦ open_line-last (not (b == 10)) bs ∙ rw (last_byte, e) refl
]

abbrev end_line : Bool → Text → Text
end_line begun rest = if begun then 10 ∷ rest else rest

snoc_not_empty : (line : Text) (b : ℕ) → is_empty (line ++ b ∷ []) ≡ false
snoc_not_empty [] b = refl
snoc_not_empty (c ∷ line) b = refl

-- `decode` does not see whether a carriage return was stripped.
module _ {ℓ} {A : Type ℓ} (decode : Text → A) where
  lines_from-append :
      ((t : Text) → decode (strip_cr t) ≡ decode t)
      → (line file rest : Text)
      → map decode (lines_from line (file ++ end_line (open_line (not (is_empty line)) file) rest))
        ≡ map decode (lines_from line file) ++ map decode (lines_from [] rest)
  unfolding lines_from
  lines_from-append h [] [] rest = refl
  lines_from-append h (c ∷ line) [] rest =
      ap (λ x. x ∷ map decode (lines_from [] rest)) (h (c ∷ line))
  lines_from-append h line (b ∷ file) rest = elim (Bool-cases (b == 10)) [
    | inl e ↦ rw e (ap (◌∷◌ (decode (strip_cr line))) (lines_from-append h [] file rest))
    | inr e ↦
        let kept : open_line (not (is_empty (line ++ b ∷ []))) file ≡ open_line true file =
          rw (snoc_not_empty line b) refl in
        rw (e, sym kept) (lines_from-append h (line ++ b ∷ []) file rest)
  ]

  -- Behind the separator that an unterminated file needs, the lines of what is added follow.
  pub lines-append :
      ((t : Text) → decode (strip_cr t) ≡ decode t)
      → (file rest : Text)
      → map decode (lines (file ++ (if unterminated file then 10 ∷ rest else rest)))
        ≡ map decode (lines file) ++ map decode (lines rest)
  unfolding lines unterminated
  lines-append h file rest =
      let one_pass : open_line false file ≡ unterminated file = open_line-last false file in
      rw (sym one_pass) (lines_from-append h [] file rest)

lines_from-flat :
    (line t : Text)
    → All (λ b. (b == 10) ≡ false) t
    → lines_from line (t ++ 10 ∷ []) ≡ strip_cr (line ++ t) ∷ []
unfolding lines_from
lines_from-flat line [] k = ap (λ x. strip_cr x ∷ []) (sym (append-nil line))
lines_from-flat line (b ∷ t) k =
    rw (k.0, lines_from-flat (line ++ b ∷ []) t k.1, append_assoc line (b ∷ []) t) refl

-- A text without newline, ended, is one line.
pub lines-flat :
    (t : Text) → All (λ b. (b == 10) ≡ false) t → lines (t ++ 10 ∷ []) ≡ strip_cr t ∷ []
unfolding lines
lines-flat t k = lines_from-flat [] t k
