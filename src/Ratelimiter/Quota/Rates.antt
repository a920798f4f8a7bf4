-- ===== src/Ratelimiter/Quota/Rates.antt =====
-- The rates that the constructors of a quota stand for.
use v_exchanges.Prelude.{ℕ, ◌+◌, ◌*◌, ◌≤◌, ◌<◌, ◌≡◌, ◌↔◌, refl, ◌/◌, ◌%◌, u64_mod, arith}
use v_exchanges.Ratelimiter.Quota.{
  Quota, per, per_second, per_minute, per_hour, burst_size_replenished_in,
}

-- A quota of `burst` cells for each `interval`: the whole burst comes back within the interval, and
-- would not with one nanosecond more for each cell; a cell takes no time at all exactly if there are
-- more cells than nanoseconds.
pub record IsRate (interval burst : ℕ) (q : Quota) : Type 0 where
  pub burst_kept : q.max_burst ≡ burst
  pub within : q.replenish_1_per * burst ≤ interval
  pub tight : interval < (q.replenish_1_per + 1) * burst
  pub whole : burst_size_replenished_in q ≡ q.replenish_1_per * burst
  pub degenerate : (q.replenish_1_per ≡ 0) ↔ (interval < burst)

module _ (interval burst : ℕ) (pos : 0 < burst) (small : interval < u64_mod) where
  per_within : (interval / burst) * burst ≤ interval
  per_within = grind arith

  per_tight : interval < (interval / burst + 1) * burst
  per_tight = grind arith

  per_le : interval / burst ≤ interval
  per_le = grind arith

  per_exact : (per interval burst).replenish_1_per ≡ interval / burst
  per_exact = omega (arith, per_le)

  whole_exact : (interval / burst * burst) % u64_mod ≡ interval / burst * burst
  whole_exact = omega (arith, per_within)

  zero_iff : (interval / burst ≡ 0) ↔ (interval < burst)
  zero_iff = (λ z. grind (arith, per_tight), λ z. grind (arith, per_within))

  per-IsRate : IsRate interval burst (per interval burst)
  unfolding burst_size_replenished_in
  per-IsRate = record {
    burst_kept = refl;
    within = rw per_exact per_within;
    tight = rw per_exact per_tight;
    whole = rw per_exact whole_exact;
    degenerate = rw per_exact zero_iff;
  }

-- Each of the three constructors gives its number of cells for its interval.
pub constructors-IsRate :
    (burst : ℕ)
    → 0 < burst
    → IsRate 1_000_000_000 burst (per_second burst)
      × IsRate 60_000_000_000 burst (per_minute burst)
      × IsRate 3_600_000_000_000 burst (per_hour burst)
unfolding per_second per_minute per_hour
constructors-IsRate burst pos = (
  per-IsRate 1_000_000_000 burst pos (omega arith),
  per-IsRate 60_000_000_000 burst pos (omega arith),
  per-IsRate 3_600_000_000_000 burst pos (omega arith),
)
