-- ===== src/Ratelimiter/Nanos.antt =====
-- v_exchanges_api_generics/src/ratelimiter/nanos.rs. `Nanos` wraps a u64, here a number below
-- 2 ^ 64; a `std::time::Duration` is its number of nanoseconds. `none` is a panic.
use v_exchanges.Prelude.{
  ℕ, ◌+◌, ◌-◌, ◌*◌, ◌/◌, ◌%◌, Option, none, some, if◌then◌else◌, leb, u64_mod, u64_max, ◌>>=◌,
}

abbrev pub Nanos : Type 0
Nanos = ℕ

abbrev pub Duration : Type 0
Duration = ℕ

-- The largest `Duration`, u64::MAX seconds and 999_999_999 nanoseconds.
abbrev pub duration_max : ℕ
duration_max = 18_446_744_073_709_551_615_999_999_999

-- `Duration::saturating_sub` and `Nanos::saturating_sub`.
abbrev pub saturating_sub : ℕ → ℕ → ℕ
saturating_sub a b = a - b

-- `From<Duration> for Nanos` panics past u64::MAX nanoseconds.
abbrev pub of_duration : Duration → Option Nanos
of_duration d = if leb d u64_max then some d else none

-- `From<Nanos> for Duration`.
abbrev pub to_duration : Nanos → Duration
to_duration n = n

-- `Add<Self> for Nanos`.
abbrev pub add : Nanos → Nanos → Nanos
add a b = (a + b) % u64_mod

-- `Mul<u64> for Nanos`.
abbrev pub mul : Nanos → ℕ → Nanos
mul a b = (a * b) % u64_mod

-- `Div<Self> for Nanos`, which panics on a zero divisor.
abbrev pub div : Nanos → Nanos → Option ℕ
div a b = if leb b 0 then none else some (a / b)

-- `Reference for Nanos`: the elapsed time is zero where `earlier` is later.
abbrev pub duration_since : Nanos → Nanos → Nanos
duration_since self earlier = saturating_sub self earlier

-- `Add<Duration> for Nanos`.
abbrev pub add_duration : Nanos → Duration → Option Nanos
add_duration self other = of_duration other >>= λ d. some (add self d)
