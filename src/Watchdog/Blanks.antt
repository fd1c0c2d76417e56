-- ===== src/Watchdog/Blanks.antt =====
-- White space, of which `trim` of the standard library strips a text, in UTF-8.
use ah.Base.{
  ℕ, ◌≤◌, ◌≡◌, refl, sym, ap, ◌∙◌, true, ◌&&◌, ◌||◌, [], ◌∷◌, ◌++◌, none, some, Text, arith, leb,
  ◌==◌, ==_iff, if◌then◌else◌, Bool-cases, inl, inr, ◌⊎◌, ◌↔◌, subst, false≢true,
}
use ah.Watchdog.{
  Blank, between, c2, e1, e1_9a, e2, e2_80, e2_81, e3, e3_80, blank_step, is_between, blank_from,
  is_blank,
}

-- A text that is made of the characters with the property White_Space of Unicode.
pub data IsSpaces : Text → Type 0 where
  no_more : IsSpaces []
  control : {b : ℕ} {t : Text} → 9 ≤ b → b ≤ 13 → IsSpaces t → IsSpaces (b ∷ t)
  space : {t : Text} → IsSpaces t → IsSpaces (32 ∷ t)
  next_line : {t : Text} → IsSpaces t → IsSpaces (0xC2 ∷ 0x85 ∷ t)
  no_break : {t : Text} → IsSpaces t → IsSpaces (0xC2 ∷ 0xA0 ∷ t)
  ogham : {t : Text} → IsSpaces t → IsSpaces (0xE1 ∷ 0x9A ∷ 0x80 ∷ t)
  quads : {b : ℕ} {t : Text} → 0x80 ≤ b → b ≤ 0x8A → IsSpaces t → IsSpaces (0xE2 ∷ 0x80 ∷ b ∷ t)
  line : {t : Text} → IsSpaces t → IsSpaces (0xE2 ∷ 0x80 ∷ 0xA8 ∷ t)
  paragraph : {t : Text} → IsSpaces t → IsSpaces (0xE2 ∷ 0x80 ∷ 0xA9 ∷ t)
  narrow : {t : Text} → IsSpaces t → IsSpaces (0xE2 ∷ 0x80 ∷ 0xAF ∷ t)
  medium : {t : Text} → IsSpaces t → IsSpaces (0xE2 ∷ 0x81 ∷ 0x9F ∷ t)
  ideographic : {t : Text} → IsSpaces t → IsSpaces (0xE3 ∷ 0x80 ∷ 0x80 ∷ t)

between-control : (b : ℕ) → 9 ≤ b → b ≤ 13 → blank_step between b ≡ some between
unfolding blank_step
between-control b l h = ground (arith, l, h)

e2_80-quads : (b : ℕ) → 0x80 ≤ b → b ≤ 0x8A → blank_step e2_80 b ≡ some between
unfolding blank_step
e2_80-quads b l h = ground (arith, l, h)

IsSpaces-from : {t : Text} → IsSpaces t → blank_from (some between) t ≡ true
unfolding blank_from blank_step is_between
IsSpaces-from no_more = refl
IsSpaces-from (control {b} {t} l h s) =
    ap (λ n. blank_from n t) (between-control b l h) ∙ IsSpaces-from s
IsSpaces-from (space s) = IsSpaces-from s
IsSpaces-from (next_line s) = IsSpaces-from s
IsSpaces-from (no_break s) = IsSpaces-from s
IsSpaces-from (ogham s) = IsSpaces-from s
IsSpaces-from (quads {b} {t} l h s) = ap (λ n. blank_from n t) (e2_80-quads b l h) ∙ IsSpaces-from s
IsSpaces-from (line s) = IsSpaces-from s
IsSpaces-from (paragraph s) = IsSpaces-from s
IsSpaces-from (narrow s) = IsSpaces-from s
IsSpaces-from (medium s) = IsSpaces-from s
IsSpaces-from (ideographic s) = IsSpaces-from s

-- The bytes of a character that have been read.
begun : Blank → Text
begun between = []
begun c2 = 0xC2 ∷ []
begun e1 = 0xE1 ∷ []
begun e1_9a = 0xE1 ∷ 0x9A ∷ []
begun e2 = 0xE2 ∷ []
begun e2_80 = 0xE2 ∷ 0x80 ∷ []
begun e2_81 = 0xE2 ∷ 0x81 ∷ []
begun e3 = 0xE3 ∷ []
begun e3_80 = 0xE3 ∷ 0x80 ∷ []

-- What a byte makes of a character that has been begun.
data Read : Blank → ℕ → Blank → Type 0 where
  read_control : {b : ℕ} → 9 ≤ b → b ≤ 13 → Read between b between
  read_space : {b : ℕ} → b ≡ 32 → Read between b between
  read_c2 : {b : ℕ} → b ≡ 0xC2 → Read between b c2
  read_e1 : {b : ℕ} → b ≡ 0xE1 → Read between b e1
  read_e2 : {b : ℕ} → b ≡ 0xE2 → Read between b e2
  read_e3 : {b : ℕ} → b ≡ 0xE3 → Read between b e3
  read_next_line : {b : ℕ} → b ≡ 0x85 → Read c2 b between
  read_no_break : {b : ℕ} → b ≡ 0xA0 → Read c2 b between
  read_e1_9a : {b : ℕ} → b ≡ 0x9A → Read e1 b e1_9a
  read_ogham : {b : ℕ} → b ≡ 0x80 → Read e1_9a b between
  read_e2_80 : {b : ℕ} → b ≡ 0x80 → Read e2 b e2_80
  read_e2_81 : {b : ℕ} → b ≡ 0x81 → Read e2 b e2_81
  read_quads : {b : ℕ} → 0x80 ≤ b → b ≤ 0x8A → Read e2_80 b between
  read_line : {b : ℕ} → b ≡ 0xA8 → Read e2_80 b between
  read_paragraph : {b : ℕ} → b ≡ 0xA9 → Read e2_80 b between
  read_narrow : {b : ℕ} → b ≡ 0xAF → Read e2_80 b between
  read_medium : {b : ℕ} → b ≡ 0x9F → Read e2_81 b between
  read_e3_80 : {b : ℕ} → b ≡ 0x80 → Read e3 b e3_80
  read_ideographic : {b : ℕ} → b ≡ 0x80 → Read e3_80 b between

Read-IsSpaces :
    {s s' : Blank} {b : ℕ} (t : Text)
    → Read s b s'
    → IsSpaces (begun s' ++ t)
    → IsSpaces (begun s ++ b ∷ t)
unfolding begun
Read-IsSpaces t (read_control l h) i = control l h i
Read-IsSpaces t (read_space e) i = subst (λ n. IsSpaces (n ∷ t)) (sym e) (space i)
Read-IsSpaces t (read_c2 e) i = subst (λ n. IsSpaces (n ∷ t)) (sym e) i
Read-IsSpaces t (read_e1 e) i = subst (λ n. IsSpaces (n ∷ t)) (sym e) i
Read-IsSpaces t (read_e2 e) i = subst (λ n. IsSpaces (n ∷ t)) (sym e) i
Read-IsSpaces t (read_e3 e) i = subst (λ n. IsSpaces (n ∷ t)) (sym e) i
Read-IsSpaces t (read_next_line e) i = subst (λ n. IsSpaces (0xC2 ∷ n ∷ t)) (sym e) (next_line i)
Read-IsSpaces t (read_no_break e) i = subst (λ n. IsSpaces (0xC2 ∷ n ∷ t)) (sym e) (no_break i)
Read-IsSpaces t (read_e1_9a e) i = subst (λ n. IsSpaces (0xE1 ∷ n ∷ t)) (sym e) i
Read-IsSpaces t (read_ogham e) i = subst (λ n. IsSpaces (0xE1 ∷ 0x9A ∷ n ∷ t)) (sym e) (ogham i)
Read-IsSpaces t (read_e2_80 e) i = subst (λ n. IsSpaces (0xE2 ∷ n ∷ t)) (sym e) i
Read-IsSpaces t (read_e2_81 e) i = subst (λ n. IsSpaces (0xE2 ∷ n ∷ t)) (sym e) i
Read-IsSpaces t (read_quads l h) i = quads l h i
Read-IsSpaces t (read_line e) i = subst (λ n. IsSpaces (0xE2 ∷ 0x80 ∷ n ∷ t)) (sym e) (line i)
Read-IsSpaces t (read_paragraph e) i =
    subst (λ n. IsSpaces (0xE2 ∷ 0x80 ∷ n ∷ t)) (sym e) (paragraph i)
Read-IsSpaces t (read_narrow e) i = subst (λ n. IsSpaces (0xE2 ∷ 0x80 ∷ n ∷ t)) (sym e) (narrow i)
Read-IsSpaces t (read_medium e) i = subst (λ n. IsSpaces (0xE2 ∷ 0x81 ∷ n ∷ t)) (sym e) (medium i)
Read-IsSpaces t (read_e3_80 e) i = subst (λ n. IsSpaces (0xE3 ∷ n ∷ t)) (sym e) i
Read-IsSpaces t (read_ideographic e) i =
    subst (λ n. IsSpaces (0xE3 ∷ 0x80 ∷ n ∷ t)) (sym e) (ideographic i)

-- A step that fails, or what it reads.
Step : Blank → ℕ → Type 0
Step s b = (blank_step s b ≡ none) ⊎ ((s' : Blank) × (blank_step s b ≡ some s') × Read s b s')

-- A byte that is compared with one value, or else fails as `e` says.
one-Step :
    {s s' : Blank} {b : ℕ} (v : ℕ)
    → blank_step s b ≡ (if b == v then some s' else none)
    → ((b ≡ v) → Read s b s')
    → Step s b
unfolding Step
one-Step {s'} {b} v p r = elim (Bool-cases (b == v)) [
  | inl e ↦ inr (s', p ∙ rw e refl, r ((==_iff b v).0 e))
  | inr e ↦ inl (p ∙ rw e refl)
]

between-Step : (b : ℕ) → Step between b
unfolding Step blank_step
between-Step b = elim (Bool-cases ((leb 9 b && leb b 13) || (b == 32))) [
  | inl e ↦ elim (Bool-cases (b == 32)) [
    | inl q ↦ inr (between, rw e refl, read_space ((==_iff b 32).0 q))
    | inr q ↦ inr (between, rw e refl, read_control (ground (arith, e, q)) (ground (arith, e, q)))
  ]
  | inr e ↦ elim (Bool-cases (b == 0xC2)) [
    | inl q ↦ inr (c2, rw (e, q) refl, read_c2 ((==_iff b 0xC2).0 q))
    | inr q ↦ elim (Bool-cases (b == 0xE1)) [
      | inl r ↦ inr (e1, rw (e, q, r) refl, read_e1 ((==_iff b 0xE1).0 r))
      | inr r ↦ elim (Bool-cases (b == 0xE2)) [
        | inl u ↦ inr (e2, rw (e, q, r, u) refl, read_e2 ((==_iff b 0xE2).0 u))
        | inr u ↦ elim (Bool-cases (b == 0xE3)) [
          | inl v ↦ inr (e3, rw (e, q, r, u, v) refl, read_e3 ((==_iff b 0xE3).0 v))
          | inr v ↦ inl (rw (e, q, r, u, v) refl)
        ]
      ]
    ]
  ]
]

e2_80-Step : (b : ℕ) → Step e2_80 b
unfolding Step blank_step
e2_80-Step b = elim (Bool-cases (leb 0x80 b && leb b 0x8A)) [
  | inl e ↦ inr (between, rw e refl, read_quads (ground (arith, e)) (ground (arith, e)))
  | inr e ↦ elim (Bool-cases (b == 0xA8)) [
    | inl q ↦ inr (between, rw (e, q) refl, read_line ((==_iff b 0xA8).0 q))
    | inr q ↦ elim (Bool-cases (b == 0xA9)) [
      | inl r ↦ inr (between, rw (e, q, r) refl, read_paragraph ((==_iff b 0xA9).0 r))
      | inr r ↦ elim (Bool-cases (b == 0xAF)) [
        | inl u ↦ inr (between, rw (e, q, r, u) refl, read_narrow ((==_iff b 0xAF).0 u))
        | inr u ↦ inl (rw (e, q, r, u) refl)
      ]
    ]
  ]
]

any-Step : (s : Blank) (b : ℕ) → Step s b
unfolding Step blank_step
any-Step between b = between-Step b
any-Step c2 b = elim (Bool-cases (b == 0x85)) [
  | inl e ↦ inr (between, rw e refl, read_next_line ((==_iff b 0x85).0 e))
  | inr e ↦ elim (Bool-cases (b == 0xA0)) [
    | inl q ↦ inr (between, rw (e, q) refl, read_no_break ((==_iff b 0xA0).0 q))
    | inr q ↦ inl (rw (e, q) refl)
  ]
]
any-Step e1 b = one-Step 0x9A refl read_e1_9a
any-Step e1_9a b = one-Step 0x80 refl read_ogham
any-Step e2 b = elim (Bool-cases (b == 0x80)) [
  | inl e ↦ inr (e2_80, rw e refl, read_e2_80 ((==_iff b 0x80).0 e))
  | inr e ↦ elim (Bool-cases (b == 0x81)) [
    | inl q ↦ inr (e2_81, rw (e, q) refl, read_e2_81 ((==_iff b 0x81).0 q))
    | inr q ↦ inl (rw (e, q) refl)
  ]
]
any-Step e2_80 b = e2_80-Step b
any-Step e2_81 b = one-Step 0x9F refl read_medium
any-Step e3 b = one-Step 0x80 refl read_e3_80
any-Step e3_80 b = one-Step 0x80 refl read_ideographic

from-IsSpaces : (s : Blank) (t : Text) → blank_from (some s) t ≡ true → IsSpaces (begun s ++ t)
unfolding blank_from begun is_between Step
from-IsSpaces between [] h = no_more
from-IsSpaces c2 [] h = absurd (false≢true h)
from-IsSpaces e1 [] h = absurd (false≢true h)
from-IsSpaces e1_9a [] h = absurd (false≢true h)
from-IsSpaces e2 [] h = absurd (false≢true h)
from-IsSpaces e2_80 [] h = absurd (false≢true h)
from-IsSpaces e2_81 [] h = absurd (false≢true h)
from-IsSpaces e3 [] h = absurd (false≢true h)
from-IsSpaces e3_80 [] h = absurd (false≢true h)
from-IsSpaces s (b ∷ t) h = elim (any-Step s b) [
  | inl e ↦ absurd (false≢true (sym (ap (λ n. blank_from n t) e) ∙ h))
  | inr (s', e, r) ↦ Read-IsSpaces t r (from-IsSpaces s' t (sym (ap (λ n. blank_from n t) e) ∙ h))
]

-- A text is blank exactly if it is made of white space.
pub is_blank-IsSpaces : (t : Text) → (is_blank t ≡ true) ↔ IsSpaces t
unfolding is_blank begun
is_blank-IsSpaces t = (from-IsSpaces between t, IsSpaces-from)
