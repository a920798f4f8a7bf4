-- ===== src/Ratelimiter/Quota.antt =====
-- v_exchanges_api_generics/src/ratelimiter/quota.rs. `max_burst` is a `NonZeroU32`: constructors
-- take it as a number with `0 < max_burst` as a hypothesis of the laws.
pub mod Rates
use v_exchanges.Prelude.{
  ℕ, ◌*◌, ◌/◌, ◌%◌, Option, none, some, if◌then◌else◌, leb, ◌==◌, not, u64_mod, u32_max, assert,
  ◌>>◌,
}
use v_exchanges.Ratelimiter.Nanos.{Nanos, Duration, to_duration}

pub record Quota : Type 0 where
  pub max_burst : ℕ
  pub replenish_1_per : Duration

-- `Duration::as_nanos() as u64` in the constructors below: intervals are at most an hour.
abbrev per : Duration → ℕ → Quota
per interval max_burst = record {
  max_burst = max_burst;
  replenish_1_per = (interval / max_burst) % u64_mod;
}

unfoldable pub per_second : ℕ → Quota
per_second = per 1_000_000_000

unfoldable pub per_minute : ℕ → Quota
per_minute = per 60_000_000_000

unfoldable pub per_hour : ℕ → Quota
per_hour = per 3_600_000_000_000

unfoldable pub with_period : Duration → Option Quota
with_period interval =
    if interval == 0 then none else some (record { max_burst = 1; replenish_1_per = interval })

unfoldable pub allow_burst : Quota → ℕ → Quota
allow_burst q max_burst = record q { max_burst = max_burst }

-- `Quota::new`.
unfoldable pub new : ℕ → Duration → Option Quota
new max_burst all =
    if all == 0
    then none
    else some (record { max_burst = max_burst; replenish_1_per = all / max_burst })

unfoldable pub burst_size_replenished_in : Quota → Duration
burst_size_replenished_in q = (q.replenish_1_per * q.max_burst) % u64_mod

-- `Quota::from_gcra_parameters`, with its assertions.
unfoldable pub from_gcra_parameters : Nanos → Nanos → Option Quota
from_gcra_parameters t tau = do
  assert (not (t == 0))
  assert (not (tau / t == 0))
  assert (leb (tau / t) u32_max)
  some (record { max_burst = tau / t; replenish_1_per = to_duration t })
