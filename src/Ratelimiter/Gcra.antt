-- ===== src/Ratelimiter/Gcra.antt =====
-- v_exchanges_api_generics/src/ratelimiter/gcra.rs: the decision and its snapshot. The caller's
-- instants are counts of nanoseconds, as those of `FakeRelativeClock` are.
pub mod Decision
pub mod Replay
pub mod Bursts
pub mod Snapshot
use v_exchanges.Prelude.{
  ℕ, ◌*◌, ◌%◌, max, min, Option, none, some, Result, ok, err, if◌then◌else◌, leb, ltb,
  saturating_mul, assert, ◌>>=◌,
}
use v_exchanges.Ratelimiter.Nanos
use v_exchanges.Ratelimiter.Nanos.{Nanos, Duration, duration_max, of_duration, to_duration}
use v_exchanges.Ratelimiter.Quota
use v_exchanges.Ratelimiter.Quota.{Quota}

pub record StateSnapshot : Type 0 where
  pub t : Nanos
  pub tau : Nanos
  pub time_of_measurement : Nanos
  pub tat : Nanos

pub record NotUntil : Type 0 where
  pub state : StateSnapshot
  pub start : Nanos

pub record Gcra : Type 0 where
  pub t : Nanos
  pub tau : Nanos

-- `Duration * u32` panics past the largest duration.
abbrev mul_duration : Duration → ℕ → Option Duration
mul_duration d n = if leb (d * n) duration_max then some (d * n) else none

unfoldable pub new : Quota → Option Gcra
new quota = do
  whole ← mul_duration quota.replenish_1_per quota.max_burst
  tau ← of_duration whole
  t ← of_duration quota.replenish_1_per
  some (record { t = t; tau = tau })

-- `StateSnapshot::quota` and `NotUntil::quota`.
unfoldable pub quota : StateSnapshot → Option Quota
quota s = Quota.from_gcra_parameters s.t s.tau

-- `StateSnapshot::remaining_burst_capacity`, with its `as u32`.
unfoldable pub remaining_burst_capacity : StateSnapshot → Option ℕ
remaining_burst_capacity s = do
  let t0 = Nanos.add s.time_of_measurement s.t
  cells ← Nanos.div (min (Nanos.saturating_sub (Nanos.add t0 s.tau) s.tat) s.tau) s.t
  some (cells % 4_294_967_296)

abbrev pub starting_state : Gcra → Nanos → Nanos
starting_state g t0 = Nanos.add t0 g.t

-- The state that a decision starts from: a key with no state yet has the starting state.
abbrev pub measured : Gcra → Nanos → Option Nanos → Nanos
measured g t0 none = starting_state g t0
measured g t0 (some tat) = tat

-- The closure that `test_and_update_n` hands to the state store: `ok next` replaces the state.
unfoldable pub decide : Gcra → Nanos → ℕ → Nanos → Option Nanos → Result NotUntil (Unit {0} × Nanos)
decide g start weight t0 state =
    let tat = measured g t0 state in
    let earliest_time = Nanos.saturating_sub tat g.tau in
    if ltb t0 earliest_time
    then err (record {
      state = record {
        t = g.t;
        tau = g.tau;
        time_of_measurement = earliest_time;
        tat = earliest_time;
      };
      start = start;
    })
    else ok (tt, Nanos.add (max tat t0) weight)

-- The assertion at the head of `test_and_update_n`: its message divides by `t`, so that both ways
-- of failing it panic.
abbrev pub fits_burst : Gcra → ℕ → Option (Unit {0})
fits_burst g n = assert (leb (saturating_mul g.t n) g.tau)

-- `NotUntil::earliest_possible`.
unfoldable pub earliest_possible : NotUntil → Nanos
earliest_possible e = Nanos.add e.start e.state.tat

-- `NotUntil::wait_time_from`.
unfoldable pub wait_time_from : NotUntil → Nanos → Duration
unfolding earliest_possible
wait_time_from e from =
    let earliest = earliest_possible e in
    to_duration (Nanos.duration_since earliest (min earliest from))
