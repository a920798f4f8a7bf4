-- ===== src/Ratelimiter/StateStore.antt =====
-- The state store of v_exchanges_api_generics/src/ratelimiter/mod.rs: `InMemoryState`, an atomic
-- number in which zero says that there is no state yet, and the map of such cells.
pub mod Linear
use v_exchanges.Prelude.{
  ℕ, Option, none, some, List, [], ◌∷◌, Result, ok, err, if◌then◌else◌, ◌==◌, Eq, Map, insert,
}
use v_exchanges.Ratelimiter.Nanos.{Nanos}
use v_exchanges.Ratelimiter.Clock.{Attempt, after, exchanges}

-- `NonZeroU64::new(prev)`.
abbrev pub nonzero : ℕ → Option Nanos
nonzero n = if n == 0 then none else some n

module _ {T E : Type 0} (f : Option Nanos → Result E (T × Nanos)) where
  -- The retry loop of `InMemoryState::measure_and_replace_one`, on what the thread last saw in the
  -- cell. The result is the caller's, with what the cell holds then; behind the attempts given
  -- comes one that nothing disturbs.
  unfoldable pub replace_loop : List Attempt → ℕ → Result E T × ℕ
  replace_loop [] prev = elim (f (nonzero prev)) [
    | ok (result, new_data) ↦ (ok result, new_data)
    | err e ↦ (err e, prev)
  ]
  replace_loop (a ∷ rest) prev =
      let again = replace_loop rest (after a prev) in
      elim (f (nonzero prev)) [
        | ok (result, new_data) ↦ if exchanges a prev then (ok result, new_data) else again
        | err e ↦ (err e, prev)
      ]

  -- `InMemoryState::measure_and_replace_one`.
  unfoldable pub measure_and_replace_one : List Attempt → ℕ → Result E T × ℕ
  unfolding replace_loop
  measure_and_replace_one attempts cell = replace_loop attempts cell

-- `get`, or `entry(key).or_default()`.
abbrev pub or_default : Option ℕ → ℕ
or_default (some cell) = cell
or_default none = 0

module _ {K T E : Type 0} ⦃e : Eq K⦄ (f : Option Nanos → Result E (T × Nanos)) where
  -- `StateStore::measure_and_replace` of the map of cells.
  unfoldable pub measure_and_replace : List Attempt → K → Map K ℕ → Result E T × Map K ℕ
  unfolding measure_and_replace_one
  measure_and_replace attempts key m =
      let (r, cell) = measure_and_replace_one f attempts (or_default (m key)) in
      (r, insert key cell m)
