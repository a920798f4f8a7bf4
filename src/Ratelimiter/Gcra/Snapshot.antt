-- ===== src/Ratelimiter/Gcra/Snapshot.antt =====
-- Quotas against the parameters that the decision works with, and the snapshot of a refusal.
use v_exchanges.Prelude.{
  ℕ, ◌+◌, ◌*◌, ◌/◌, ◌%◌, ◌≤◌, ◌<◌, ◌≡◌, some, u64_mod, u64_max, u32_max, arith,
}
use v_exchanges.Ratelimiter.Nanos.{Nanos}
use v_exchanges.Ratelimiter.Quota
use v_exchanges.Ratelimiter.Quota.{Quota}
use v_exchanges.Ratelimiter.Gcra.{Gcra, new, quota, remaining_burst_capacity}
use v_exchanges.Ratelimiter.Gcra.Decision.{refusal}

mul_div_left : (t b : ℕ) → 0 < t → (t * b) / t ≡ b
mul_div_left t b h = grind arith

-- A quota whose burst is positive and whose whole burst takes at most u64::MAX nanoseconds gives
-- parameters, and the quota read back from them is the quota.
pub quota-new :
    (q : Quota) (start earliest : Nanos)
    → 0 < q.replenish_1_per
    → 0 < q.max_burst
    → q.max_burst ≤ u32_max
    → q.replenish_1_per * q.max_burst ≤ u64_max
    → (g : Gcra) × (new q ≡ some g) × (quota (refusal g start earliest).state ≡ some q)
unfolding new quota Quota.from_gcra_parameters
quota-new q start earliest pos some_burst small fits =
    let each : q.replenish_1_per ≤ u64_max = grind arith in
    (
      record { t = q.replenish_1_per; tau = q.replenish_1_per * q.max_burst },
      ground arith,
      ground (arith, mul_div_left q.replenish_1_per q.max_burst pos),
    )

-- The snapshot of a refusal reports the whole burst as what remains of it, and not zero.
pub refusal-remaining_burst_capacity :
    (g : Gcra) (start earliest : Nanos)
    → 0 < g.t
    → earliest + g.t + g.tau < u64_mod
    → remaining_burst_capacity (refusal g start earliest).state
      ≡ some ((g.tau / g.t) % 4_294_967_296)
unfolding remaining_burst_capacity
refusal-remaining_burst_capacity g start earliest pos fits = ground arith
