-- ===== src/Errors.antt =====
-- src/domain/error.rs: execution errors, what is retried, and how long a retry waits.
pub mod Backoff
mod Tests
use ah.Base.{
  ℕ, ◌+◌, ◌-◌, ◌*◌, ◌^◌, ◌%◌, min, max, Bool, true, false, Option, none, some, Text, bytes,
}

pub data FailureReason : Type 0 where
  timeout rate_limited authentication quota_exhausted agent_error user_cancelled : FailureReason
  watchdog_cancelled unknown : FailureReason

pub data ExecutionError : Type 0 where
  invalid_request timeout : Text → ExecutionError
  rate_limited : Text → Option ℕ → ExecutionError
  authentication quota_exhausted transport user_cancelled : Text → ExecutionError
  empty_response : ExecutionError
  unknown : Text → ExecutionError

unfoldable pub is_retryable : ExecutionError → Bool
is_retryable (ExecutionError.timeout m) = true
is_retryable (ExecutionError.rate_limited m secs) = true
is_retryable (ExecutionError.transport m) = true
is_retryable (ExecutionError.unknown m) = true
is_retryable _ = false

-- `u64` arithmetic: the power saturates, the product wraps as in a release build.
unfoldable pub saturating_pow2 : ℕ → ℕ
saturating_pow2 n = min (2 ^ n) (2 ^ 64 - 1)

unfoldable pub backoff_secs : ℕ → ℕ
unfolding saturating_pow2
backoff_secs retry_count = min (max (saturating_pow2 (retry_count - 1)) 1 * 2 % 2 ^ 64) 30

-- In seconds.
unfoldable pub retry_delay : ExecutionError → ℕ → ℕ
unfolding backoff_secs
retry_delay (ExecutionError.rate_limited m (some secs)) retry_count = secs
retry_delay _ retry_count = backoff_secs retry_count

unfoldable pub to_failure_reason : ExecutionError → FailureReason
to_failure_reason (ExecutionError.timeout m) = FailureReason.timeout
to_failure_reason (ExecutionError.rate_limited m secs) = FailureReason.rate_limited
to_failure_reason (ExecutionError.authentication m) = FailureReason.authentication
to_failure_reason (ExecutionError.quota_exhausted m) = FailureReason.quota_exhausted
to_failure_reason (ExecutionError.user_cancelled m) = FailureReason.user_cancelled
to_failure_reason (ExecutionError.transport m) = FailureReason.agent_error
to_failure_reason (ExecutionError.invalid_request m) = FailureReason.agent_error
to_failure_reason ExecutionError.empty_response = FailureReason.agent_error
to_failure_reason (ExecutionError.unknown m) = FailureReason.unknown

unfoldable pub message : ExecutionError → Text
unfolding bytes
message (ExecutionError.timeout m) = m
message (ExecutionError.authentication m) = m
message (ExecutionError.quota_exhausted m) = m
message (ExecutionError.transport m) = m
message (ExecutionError.user_cancelled m) = m
message (ExecutionError.invalid_request m) = m
message (ExecutionError.unknown m) = m
message (ExecutionError.rate_limited m secs) = m
message ExecutionError.empty_response = bytes "empty response from model"

unfoldable pub is_fallback_eligible : ExecutionError → Bool
is_fallback_eligible (ExecutionError.rate_limited m secs) = true
is_fallback_eligible (ExecutionError.quota_exhausted m) = true
is_fallback_eligible _ = false

-- The wait that a rate limiting provider asks for.
unfoldable pub retry_after : ExecutionError → Option ℕ
retry_after (ExecutionError.rate_limited m secs) = secs
retry_after _ = none
