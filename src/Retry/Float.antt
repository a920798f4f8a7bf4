-- ===== src/Retry/Float.antt =====
-- Rust's `f64`, as far as v_exchanges_api_generics/src/retry uses it, and what that code relies on.
use v_exchanges.Prelude.{ℕ, ◌≤◌, ◌^◌, ◌≡◌, Bool, true}

pub record Float : Type 1 where
  pub F : Type 0
  pub of_u64 : ℕ → F
  pub mul : F → F → F
  pub lt : F → F → Bool
  pub le : F → F → Bool
  -- The literal of a decimal fraction with one digit, `10 * x`.
  pub tenths : ℕ → F
  -- `as u64`: towards zero, saturating.
  pub to_u64 : F → ℕ

-- Integers up to 2 ^ 53 are exact in an `f64`, so that multiplying such a one by a factor of at
-- least 1.0 and going back to an integer does not make it smaller.
pub record IsExact (fl : Float) : Type 0 where
  pub grows :
      (x : ℕ) (factor : fl.F)
      → x ≤ 2 ^ 53
      → fl.le (fl.tenths 10) factor ≡ true
      → x ≤ fl.to_u64 (fl.mul (fl.of_u64 x) factor)
