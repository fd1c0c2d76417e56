-- ===== src/Errors/Backoff.antt =====
-- The backoff of a retry: doubling up to half a minute.
use native.Mathlib.Nat.{pow-le-pow_right}
use ah.Base.{
  ℕ, zero, suc, ◌+◌, ◌-◌, ◌^◌, ◌≤◌, ◌≡◌, ◌≢◌, refl, ap, ◌∙◌, sym, min, arith, none, some, ◌↔◌,
  dec_le, ℕ_discrete,
}
use ah.Errors.{ExecutionError, backoff_secs, retry_delay, retry_after}

-- Up to 63 the doubled power fits the word.
pow-fits : (k : ℕ) → k ≤ 58 → (16 ≤ 2 ^ (4 + k)) × (2 ^ (4 + k) ≤ 2 ^ 62)
pow-fits k h = (
  pow-le-pow_right (omega arith) {i = 4} {j = 4 + k} (omega arith),
  pow-le-pow_right (omega arith) {i = 4 + k} {j = 62} (omega arith),
)

pow-large : (k : ℕ) → 32 ≤ 2 ^ (5 + k)
pow-large k = pow-le-pow_right (omega arith) {i = 5} {j = 5 + k} (omega arith)

pow-saturates : (k : ℕ) → 2 ^ 64 ≤ 2 ^ (64 + k)
pow-saturates k = pow-le-pow_right (omega arith) {i = 64} {j = 64 + k} (omega arith)

backoff_secs-mid : (n : ℕ) → 5 ≤ n → n ≤ 62 → backoff_secs n ≡ 30
unfolding backoff_secs
backoff_secs-mid n a b =
    let e : n - 1 ≡ 4 + (n - 5) = omega arith in
    rw e (omega (arith, pow-fits (n - 5) (omega arith)))

backoff_secs-high : (n : ℕ) → 65 ≤ n → backoff_secs n ≡ 30
unfolding backoff_secs
backoff_secs-high n a =
    let e : n - 1 ≡ 64 + (n - 65) = omega arith in rw e (omega (arith, pow-saturates (n - 65)))

backoff_secs-63 : backoff_secs 63 ≡ 30
unfolding backoff_secs
backoff_secs-63 = refl

capped : (n : ℕ) → 5 ≤ n → min (2 ^ n) 30 ≡ 30
capped n h =
    let e : n ≡ 5 + (n - 5) = omega arith in omega (arith, pow-large (n - 5), ap (λ m. 2 ^ m) e)

pow-pos : (n : ℕ) → 1 ≤ 2 ^ n
pow-pos n = pow-le-pow_right (omega arith) {i = 0} {j = n} (omega arith)

backoff_secs-capped : (n : ℕ) → 5 ≤ n → n ≢ 64 → backoff_secs n ≡ 30
backoff_secs-capped n low ne = elim (dec_le n 62) [
  | yes mid ↦ backoff_secs-mid n low mid
  | no above ↦ elim (ℕ_discrete n 63) [
    | yes e ↦ rw e backoff_secs-63
    | no ne' ↦ backoff_secs-high n (omega arith)
  ]
]

backoff_secs_lem : (n : ℕ) → 1 ≤ n → n ≢ 64 → backoff_secs n ≡ min (2 ^ n) 30
unfolding backoff_secs
backoff_secs_lem zero h ne = omega arith
backoff_secs_lem (suc zero) h ne = refl
backoff_secs_lem (suc (suc zero)) h ne = refl
backoff_secs_lem (suc (suc (suc zero))) h ne = refl
backoff_secs_lem (suc (suc (suc (suc zero)))) h ne = refl
backoff_secs_lem (suc (suc (suc (suc (suc k))))) h ne =
    backoff_secs-capped (suc (suc (suc (suc (suc k))))) (omega arith) ne
    ∙ sym (capped (suc (suc (suc (suc (suc k))))) (omega arith))

retry_delay_lem :
    (e : ExecutionError) (n : ℕ) → retry_after e ≡ none → retry_delay e n ≡ backoff_secs n
unfolding retry_delay retry_after
retry_delay_lem (ExecutionError.rate_limited m (some secs)) n h = cc
retry_delay_lem _ n h = refl

-- Without a wait that the provider asks for, the retry of every count from 1 on but 64 waits 2 to the
-- count seconds, at most 30.
pub retry_delay-eq-backoff :
    (e : ExecutionError) (n : ℕ)
    → retry_after e ≡ none
    → 1 ≤ n
    → n ≢ 64
    → retry_delay e n ≡ min (2 ^ n) 30
retry_delay-eq-backoff e n h low ne = retry_delay_lem e n h ∙ backoff_secs_lem n low ne

backoff_secs-zero : (n : ℕ) → 1 ≤ n → backoff_secs n ≡ 0 → n ≡ 64
backoff_secs-zero n low z = elim (ℕ_discrete n 64) [
  | yes e ↦ e
  | no ne ↦ absurd (omega (arith, backoff_secs_lem n low ne, pow-pos n))
]

backoff_secs-64 : backoff_secs 64 ≡ 0
unfolding backoff_secs
backoff_secs-64 = refl

-- Without a wait that the provider asks for, a retry waits no time at all exactly when it is the
-- 64th, whose doubled power wraps to 0.
pub retry_delay-zero_iff :
    (e : ExecutionError) (n : ℕ) → retry_after e ≡ none → 1 ≤ n → (retry_delay e n ≡ 0) ↔ (n ≡ 64)
retry_delay-zero_iff e n h low = (
  λ z. backoff_secs-zero n low (sym (retry_delay_lem e n h) ∙ z),
  λ p. retry_delay_lem e n h ∙ ap backoff_secs p ∙ backoff_secs-64,
)
