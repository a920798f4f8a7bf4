-- ===== src/Tests/Retries.antt =====
-- The theorems on retries at a decimal stand-in of `f64`: numbers in tenths.
pub mod Decimal
use v_exchanges.Prelude.{
  ℕ, ◌+◌, ◌*◌, ◌≤◌, ◌<◌, ◌≡◌, ◌↔◌, ◌⊎◌, inl, inr, refl, Bool, true, false, List, [], ◌∷◌, Option,
  none, some, Result, ok, err, if◌then◌else◌, ltb, arith, u64_max, ◌^◌, ◌==◌,
}
use v_exchanges.Retry.Config.{RetryConfig, http_config}
use v_exchanges.Retry.Backoff.{
  ExponentialBackoff, try_new, next_duration, reset, from_millis, fresh, of_config,
}
use v_exchanges.Retry.Backoff.Bounds.{IsValid, try_new_iff, try_new-IsValid}
use v_exchanges.Retry.Backoff.Runs.{delays, AllAtMost, AllAtLeast, reset-delays, delays-bounded}
use v_exchanges.Retry.Manager.{Environment, Run, Message, execute_with_retry}
use v_exchanges.Retry.Manager.Termination.{execute_with_retry-total, execute_with_retry-Ends}
use v_exchanges.Tests.Retries.Decimal.{decimal, decimal-IsExact}

-- 500 ms doubling up to 5 s, with up to 100 ms of jitter and an immediate first reconnect.
abbrev backoff : ExponentialBackoff decimal
backoff = fresh decimal 500_000_000 5_000_000_000 20 100 true

backoff-new : try_new decimal 500_000_000 5_000_000_000 20 100 true ≡ ok backoff
unfolding try_new
backoff-new = refl

backoff-IsValid : IsValid decimal backoff
backoff-IsValid =
    (try_new-IsValid decimal 500_000_000 5_000_000_000 20 100 true backoff backoff-new).0

-- An operation that fails twice and then answers 42.
abbrev environment : Environment ℕ ℕ
environment = record {
  operation = λ k. if ltb k 2 then err k else ok 42;
  elapsed_before = λ _. 0;
  elapsed_after = λ _. 0;
  jitter = λ _. 0;
  should_retry = λ _. true;
  create_error = λ _. 99;
}

execute_with_retry-total_example :
    (r : Run ℕ ℕ) × (execute_with_retry decimal (http_config decimal) environment ≡ some r)
    × (r.calls ≤ (http_config decimal).max_retries + 1)
execute_with_retry-total_example =
    execute_with_retry-total decimal (http_config decimal) environment

abbrev http_backoff : ExponentialBackoff decimal
http_backoff = fresh decimal 500_000_000 5_000_000_000 20 100 false

http-free : (http_config decimal).max_elapsed_ms ≡ none
unfolding http_config
http-free = refl

http-new : of_config decimal (http_config decimal) ≡ ok http_backoff
unfolding of_config http_config try_new
http-new = refl

http-retries : 2 ≤ (http_config decimal).max_retries
unfolding http_config
http-retries = ground arith
