-- ===== src/Ratelimiter/Limiter.antt =====
-- `RateLimiter` of v_exchanges_api_generics/src/ratelimiter/mod.rs. The clock's readings and the
-- interference of other threads are arguments; `none` is a panic.
pub mod Check
pub mod Wait
use v_exchanges.Prelude.{
  ℕ, Bool, true, false, Option, none, some, List, [], ◌∷◌, Result, ok, err, Eq, Map, insert, ◌>>=◌,
  ◌>>◌,
}
use v_exchanges.Ratelimiter.Nanos
use v_exchanges.Ratelimiter.Nanos.{Nanos, Duration}
use v_exchanges.Ratelimiter.Quota.{Quota}
use v_exchanges.Ratelimiter.Clock.{Attempt}
use v_exchanges.Ratelimiter.Gcra
use v_exchanges.Ratelimiter.Gcra.{Gcra, NotUntil, decide, fits_burst, wait_time_from}
use v_exchanges.Ratelimiter.StateStore.{measure_and_replace}

pub record RateLimiter (K : Type 0) : Type 0 where
  pub default_gcra : Option Gcra
  pub state : Map K ℕ
  pub gcra : Map K Gcra
  pub start : Nanos

base_gcra : Option Quota → Option (Option Gcra)
base_gcra none = some none
base_gcra (some q) = Gcra.new q >>= λ g. some (some g)

module _ {K : Type 0} ⦃e : Eq K⦄ where
  -- `Gcra::test_and_update_n`, on the map of cells.
  unfoldable pub test_and_update_n :
      Gcra
      → Nanos
      → K
      → List Attempt
      → Nanos
      → ℕ
      → Map K ℕ
      → Option (Result NotUntil (Unit {0}) × Map K ℕ)
  test_and_update_n g start key attempts t0 n m = do
    fits_burst g n
    let weight = Nanos.mul g.t n
    let elapsed = Nanos.duration_since t0 start
    some (measure_and_replace (decide g start weight elapsed) attempts key m)

  -- `Gcra::test_and_update`.
  unfoldable pub test_and_update :
      Gcra
      → Nanos
      → K
      → List Attempt
      → Nanos
      → Map K ℕ
      → Option (Result NotUntil (Unit {0}) × Map K ℕ)
  unfolding test_and_update_n
  test_and_update g start key attempts t0 = test_and_update_n g start key attempts t0 1

  collect : List (K × Quota) → Map K Gcra → Option (Map K Gcra)
  collect [] m = some m
  collect ((k, q) ∷ rest) m = Gcra.new q >>= λ g. collect rest (insert k g m)

  -- `RateLimiter::new_with_quota`; of two quotas for one key the later one stays.
  unfoldable pub new_with_quota : Option Quota → List (K × Quota) → Nanos → Option (RateLimiter K)
  unfolding collect base_gcra
  new_with_quota base_quota keyed_quotas start = do
    gcra ← collect keyed_quotas (λ _. none)
    base ← base_gcra base_quota
    some (record { default_gcra = base; state = λ _. none; gcra = gcra; start = start })

  -- `RateLimiter::add_quota_for_key`.
  unfoldable pub add_quota_for_key : K → Quota → RateLimiter K → Option (RateLimiter K)
  add_quota_for_key key value rl =
      Gcra.new value >>= λ g. some (record rl { gcra = insert key g rl.gcra })

  -- The quota that governs a key: its own one, or the default.
  abbrev pub governing : RateLimiter K → K → Option Gcra
  governing rl key = elim (rl.gcra key) [ some g ↦ some g | none ↦ rl.default_gcra ]

  -- `RateLimiter::check_key_n`, at the clock's reading `now`.
  unfoldable pub check_key_n :
      RateLimiter K
      → K
      → ℕ
      → List Attempt
      → Nanos
      → Option (Result NotUntil (Unit {0}) × RateLimiter K)
  unfolding test_and_update_n
  check_key_n rl key n attempts now = elim (governing rl key) [
    | some g ↦
        (test_and_update_n g rl.start key attempts now n rl.state >>= λ (r, m).
        some (r, record rl { state = m }))
    | none ↦ some (ok tt, rl)
  ]

  -- `RateLimiter::check_key`.
  unfoldable pub check_key :
      RateLimiter K → K → List Attempt → Nanos → Option (Result NotUntil (Unit {0}) × RateLimiter K)
  unfolding check_key_n
  check_key rl key attempts now = check_key_n rl key 1 attempts now

  -- `RateLimiter::until_key_ready_n`, round by round: what the clock reads at the check and behind
  -- it. The result says whether the key was found ready in these rounds, with the sleeps made.
  unfoldable pub until_key_ready_n :
      List (Nanos × Nanos) → RateLimiter K → K → ℕ → Option (Bool × List Duration × RateLimiter K)
  unfolding check_key_n
  until_key_ready_n [] rl key n = some (false, [], rl)
  until_key_ready_n ((now, now') ∷ rounds) rl key n = elim (check_key_n rl key n [] now) [
    | none ↦ none
    | some (ok _, rl') ↦ some (true, [], rl')
    | some (err until, rl') ↦
        (until_key_ready_n rounds rl' key n >>= λ (ready, sleeps, rl'').
        some (ready, wait_time_from until now' ∷ sleeps, rl''))
  ]
