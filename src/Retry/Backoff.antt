-- ===== src/Retry/Backoff.antt =====
-- `ExponentialBackoff` (v_exchanges_api_generics/src/retry/backoff.rs). A duration is its number of
-- nanoseconds; the random jitter is an argument of `next_duration`.
pub mod Bounds
pub mod Runs
use v_exchanges.Prelude.{
  ℕ, ◌+◌, ◌*◌, Bool, true, false, ◌&&◌, min, Result, ok, err, if◌then◌else◌, ltb, leb, ◌==◌,
  u64_max,
}
use v_exchanges.Retry.Float.{Float}
use v_exchanges.Retry.Config.{RetryConfig}

-- The messages of `try_new`, one for each `ensure!`.
pub data BackoffError : Type 0 where
  initial_zero max_below_initial max_too_long factor_out_of_range : BackoffError

-- `Duration::from_millis`.
abbrev pub from_millis : ℕ → ℕ
from_millis ms = ms * 1_000_000

module _ (fl : Float) where
  open fl use {F, of_u64, mul, lt, le, tenths, to_u64}

  pub record ExponentialBackoff : Type 0 where
    pub delay_initial : ℕ
    pub delay_max : ℕ
    pub delay_current : ℕ
    pub factor : F
    pub jitter_ms : ℕ
    pub immediate_reconnect : Bool
    pub immediate_reconnect_original : Bool

  -- The value that `try_new` builds.
  abbrev pub fresh : ℕ → ℕ → F → ℕ → Bool → ExponentialBackoff
  fresh delay_initial delay_max factor jitter_ms immediate_first = record {
    delay_initial = delay_initial;
    delay_max = delay_max;
    delay_current = delay_initial;
    factor = factor;
    jitter_ms = jitter_ms;
    immediate_reconnect = immediate_first;
    immediate_reconnect_original = immediate_first;
  }

  unfoldable pub try_new : ℕ → ℕ → F → ℕ → Bool → Result BackoffError ExponentialBackoff
  try_new delay_initial delay_max factor jitter_ms immediate_first =
      if delay_initial == 0
      then err initial_zero
      else if ltb delay_max delay_initial
      then err max_below_initial
      else if ltb u64_max delay_max
      then err max_too_long
      else if le (tenths 10) factor && le factor (tenths 1_000)
      then ok (fresh delay_initial delay_max factor jitter_ms immediate_first)
      else err factor_out_of_range

  -- The next base delay: the product in `f64`, capped.
  abbrev pub next_nanos : ExponentialBackoff → ℕ
  next_nanos b =
      if ltb u64_max b.delay_current
      then b.delay_max
      else let next_f64 = mul (of_u64 b.delay_current) b.factor in
        if lt (of_u64 u64_max) next_f64 then u64_max else to_u64 next_f64

  unfoldable pub final_nanos : ExponentialBackoff → ℕ
  final_nanos b =
      let clamped = min (next_nanos b) b.delay_max in
      if ltb u64_max clamped then u64_max else clamped

  -- `next_duration`, with the jitter that `random_range(0..=jitter_ms)` drew.
  unfoldable pub next_duration : ℕ → ExponentialBackoff → ℕ × ExponentialBackoff
  next_duration jitter b =
      if b.immediate_reconnect && (b.delay_current == b.delay_initial)
      then (0, record b { immediate_reconnect = false })
      else (b.delay_current + from_millis jitter, record b { delay_current = final_nanos b })

  unfoldable pub reset : ExponentialBackoff → ExponentialBackoff
  reset b = record b {
    delay_current = b.delay_initial;
    immediate_reconnect = b.immediate_reconnect_original;
  }

  -- `TryFrom<&RetryConfig>`.
  unfoldable pub of_config : RetryConfig fl → Result BackoffError ExponentialBackoff
  unfolding try_new
  of_config c =
      try_new (from_millis c.initial_delay_ms) (from_millis c.max_delay_ms) c.backoff_factor
        c.jitter_ms c.immediate_first
