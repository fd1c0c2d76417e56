-- ===== src/Base/Removal.antt =====
-- What `remove_first` finds and leaves, as a relation.
use Prim.Native.Nat.{◌+◌}
use mathlib.Core.Path.{◌≡◌, refl}
use mathlib.Core.Logic.{◌⊎◌, inl, inr}
use mathlib.Core.Bool.{Bool, true, false}
use mathlib.Core.Option.{none, some}
use mathlib.Core.List.{List, [], ◌∷◌}
use native.Mathlib.Omega.{arith}
use ah.Base.Tests.{if◌then◌else◌, Bool-cases}
use ah.Base.Lists.{filter, count, remove_first, All}

-- `ys` is `xs` less its first hit `y`.
pub data Removes {ℓ} {A : Type ℓ} (p : A → Bool) : List A → A → List A → Type ℓ where
  hit : {x : A} {xs : List A} → p x ≡ true → Removes p (x ∷ xs) x xs
  miss :
      {x y : A} {xs ys : List A} → p x ≡ false → Removes p xs y ys → Removes p (x ∷ xs) y (x ∷ ys)

module _ {ℓ} {A : Type ℓ} where
  abbrev pub Removal : (A → Bool) → List A → Type ℓ
  Removal p xs =
      ((remove_first p xs ≡ none) × (count p xs ≡ 0))
      ⊎ ((y : A) × (ys : List A) × (remove_first p xs ≡ some (y, ys)) × Removes p xs y ys)

  extend : (p : A → Bool) (x : A) (xs : List A) → p x ≡ false → Removal p xs → Removal p (x ∷ xs)
  extend p x xs h (inl (e, c)) = inl (rw (h, e) refl, rw h c)
  extend p x xs h (inr (y, ys, e, r)) = inr (y, x ∷ ys, rw (h, e) refl, miss h r)

  pub remove_first-cases : (p : A → Bool) (xs : List A) → Removal p xs
  remove_first-cases p [] = inl (refl, refl)
  remove_first-cases p (x ∷ xs) = elim (Bool-cases (p x)) [
    | inl h ↦ inr (x, xs, rw h refl, hit h)
    | inr h ↦ extend p x xs h (remove_first-cases p xs)
  ]

  pub Removes-hit :
      {p : A → Bool} {xs : List A} {y : A} {ys : List A} → Removes p xs y ys → p y ≡ true
  Removes-hit (hit h) = h
  Removes-hit (miss h r) = Removes-hit r

  pub Removes-count :
      {p : A → Bool} (q : A → Bool) {xs : List A} {y : A} {ys : List A}
      → Removes p xs y ys
      → count q xs ≡ count q ys + (if q y then 1 else 0)
  Removes-count q (hit h) = ground arith
  Removes-count q (miss h r) = ground (arith, Removes-count q r)

  pub Removes-filter :
      {p : A → Bool} (q : A → Bool) {xs : List A} {y : A} {ys : List A}
      → Removes p xs y ys
      → q y ≡ false
      → filter q ys ≡ filter q xs
  Removes-filter q (hit h) e = ground arith
  Removes-filter q (miss h r) e = ground (arith, Removes-filter q r e)

  pub Removes-All {κ} :
      (P : A → Type κ) {p : A → Bool} {xs : List A} {y : A} {ys : List A}
      → Removes p xs y ys
      → All P xs
      → All P ys
  Removes-All P (hit h) a = a.1
  Removes-All P (miss h r) a = (a.0, Removes-All P r a.1)
