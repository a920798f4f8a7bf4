-- ===== src/Ratelimiter/Clock.antt =====
-- v_exchanges_api_generics/src/ratelimiter/clock.rs: `Reference for Duration` and the fake clock,
-- whose `advance` is a compare-exchange loop against other threads.
use v_exchanges.Prelude.{
  ℕ, ◌+◌, ◌-◌, ◌%◌, Bool, true, false, not, ◌&&◌, List, [], ◌∷◌, Option, none, some, if◌then◌else◌,
  ltb, ◌==◌, u64_mod, ◌>>=◌,
}
use v_exchanges.Ratelimiter.Nanos.{Nanos, Duration, of_duration}

-- `Duration::checked_sub`.
abbrev pub checked_sub : Duration → Duration → Option Duration
checked_sub a b = if ltb a b then none else some (a - b)

abbrev or_else {ℓ} : {A : Type ℓ} → Option A → A → A
or_else none d = d
or_else (some a) _ = a

-- `Reference for Duration`.
unfoldable pub duration_since : Duration → Duration → Option Nanos
duration_since self earlier = of_duration (or_else (checked_sub self earlier) 0)

unfoldable pub saturating_sub : Duration → Nanos → Duration
saturating_sub self duration = or_else (checked_sub self duration) self

-- What happens between a thread's read of an atomic cell and its `compare_exchange_weak`: nothing,
-- a spurious failure, or a write of another thread.
pub data Attempt : Type 0 where
  quiet spurious : Attempt
  wrote : ℕ → Attempt

-- What the cell holds when the exchange is made.
abbrev pub after : Attempt → ℕ → ℕ
after quiet cell = cell
after spurious cell = cell
after (wrote v) _ = v

abbrev pub is_spurious : Attempt → Bool
is_spurious spurious = true
is_spurious _ = false

-- Whether `compare_exchange_weak(prev, _)` stores.
abbrev pub exchanges : Attempt → ℕ → Bool
exchanges a prev = not (is_spurious a) && (after a prev == prev)

-- The loop of `FakeRelativeClock::advance`. `prev` is what the thread last saw in the cell; behind
-- the attempts given comes one that nothing disturbs.
unfoldable pub advance_loop : List Attempt → ℕ → ℕ → ℕ
advance_loop [] by prev = (prev + by) % u64_mod
advance_loop (a ∷ rest) by prev =
    let again = advance_loop rest by (after a prev) in
    if exchanges a prev then (prev + by) % u64_mod else again

-- `FakeRelativeClock::advance`: it panics past u64::MAX nanoseconds.
unfoldable pub advance : List Attempt → Duration → ℕ → Option ℕ
unfolding advance_loop
advance attempts by cell = of_duration by >>= λ b. some (advance_loop attempts b cell)
