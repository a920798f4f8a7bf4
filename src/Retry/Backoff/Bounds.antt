-- ===== src/Retry/Backoff/Bounds.antt =====
-- The range of the delays of an `ExponentialBackoff`, their growth, and what `reset` restores.
use v_exchanges.Prelude.{ℕ, ◌+◌, ◌≤◌, ◌<◌, ◌^◌, ◌≡◌, ◌↔◌, Bool, true, false, ok, u64_max, arith}
use v_exchanges.Retry.Float.{Float, IsExact}
use v_exchanges.Retry.Backoff.{
  ExponentialBackoff, fresh, try_new, next_duration, from_millis, final_nanos,
}

module _ (fl : Float) where
  open fl use {F, le, tenths}

  pub record IsValid (b : ExponentialBackoff fl) : Type 0 where
    pub positive : 0 < b.delay_initial
    pub ordered : b.delay_initial ≤ b.delay_max
    pub representable : b.delay_max ≤ u64_max
    pub capped : b.delay_current ≤ b.delay_max
    pub factor_low : le (tenths 10) b.factor ≡ true
    pub factor_high : le b.factor (tenths 1_000) ≡ true

  -- `try_new` succeeds exactly under the four documented conditions.
  pub try_new_iff :
      (initial max_delay : ℕ) (factor : F) (jitter_ms : ℕ) (immediate : Bool)
      → ((b : ExponentialBackoff fl) × (try_new fl initial max_delay factor jitter_ms immediate
            ≡ ok b))
        ↔ ((0 < initial)
            × (initial ≤ max_delay)
            × (max_delay ≤ u64_max)
            × (le (tenths 10) factor ≡ true)
            × (le factor (tenths 1_000) ≡ true))
  unfolding try_new
  try_new_iff initial max_delay factor jitter_ms immediate = (
    λ (b, p). ground arith,
    λ h. (fresh fl initial max_delay factor jitter_ms immediate, ground arith),
  )

  -- What `try_new` returns is valid, and stands at its initial delay.
  pub try_new-IsValid :
      (initial max_delay : ℕ) (factor : F) (jitter_ms : ℕ) (immediate : Bool)
      (b : ExponentialBackoff fl)
      → try_new fl initial max_delay factor jitter_ms immediate ≡ ok b
      → IsValid b
        × (b.delay_current ≡ b.delay_initial)
        × (b.immediate_reconnect ≡ b.immediate_reconnect_original)
  unfolding try_new
  try_new-IsValid initial max_delay factor jitter_ms immediate b p = ground arith

  pub final_nanos_capped : (b : ExponentialBackoff fl) → final_nanos fl b ≤ b.delay_max
  unfolding final_nanos
  final_nanos_capped b = ground arith

  -- A call keeps the backoff valid and its configuration as it is; the delay is at most the largest
  -- one and the largest jitter together.
  pub next_duration-IsValid :
      (jitter : ℕ) (b : ExponentialBackoff fl)
      → jitter ≤ b.jitter_ms
      → IsValid b
      → let (delay, b') = next_duration fl jitter b in
        IsValid b'
        × (delay ≤ b.delay_max + from_millis b.jitter_ms)
        × (b'.delay_max ≡ b.delay_max)
        × (b'.jitter_ms ≡ b.jitter_ms)
        × (b'.delay_initial ≡ b.delay_initial)
        × (b'.immediate_reconnect_original ≡ b.immediate_reconnect_original)
  unfolding next_duration
  next_duration-IsValid jitter b h v = ground (arith, final_nanos_capped b)

  module _ (exact : IsExact fl) where
    -- Up to 2 ^ 53 nanoseconds the base delay never falls.
    pub final_nanos_grows :
        (b : ExponentialBackoff fl)
        → IsValid b
        → b.delay_max ≤ 2 ^ 53
        → b.delay_current ≤ final_nanos fl b
    unfolding final_nanos
    final_nanos_grows b v h =
        ground (arith, exact.grows b.delay_current b.factor (omega (arith, v.capped)) v.factor_low)

    -- A backoff that has left its immediate reconnect behind, if it had one.
    pub record IsStarted (b : ExponentialBackoff fl) : Type 0 where
      pub valid : IsValid b
      pub exact_max : b.delay_max ≤ 2 ^ 53
      pub grown : b.delay_initial ≤ b.delay_current
      pub spent : b.immediate_reconnect ≡ false

    pub next_duration-IsStarted :
        (jitter : ℕ) (b : ExponentialBackoff fl)
        → jitter ≤ b.jitter_ms
        → IsStarted b
        → let (delay, b') = next_duration fl jitter b in
          IsStarted b'
          × (delay ≡ b.delay_current + from_millis jitter)
          × (b.delay_current ≤ b'.delay_current)
          × (b'.delay_initial ≡ b.delay_initial)
          × (b'.jitter_ms ≡ b.jitter_ms)
    unfolding next_duration
    next_duration-IsStarted jitter b h v =
        ground (arith, final_nanos_capped b, final_nanos_grows b v.valid v.exact_max)
