-- ===== src/Errors/Tests.antt =====
-- The backoff at concrete counts.
use ah.Base.{ℕ, ◌≡◌, ◌↔◌, refl, arith, []}
use ah.Errors.{ExecutionError, retry_delay, retry_after}
use ah.Errors.Backoff.{retry_delay-zero_iff}

abbrev reset : ExecutionError
reset = ExecutionError.transport []

third_retry : retry_delay reset 3 ≡ 8
unfolding retry_delay
third_retry = refl

retry_delay-zero_iff_example : (retry_delay reset 64 ≡ 0) ↔ (◌≡◌ {A = ℕ} 64 64)
unfolding retry_after
retry_delay-zero_iff_example = retry_delay-zero_iff reset 64 refl (omega arith)
