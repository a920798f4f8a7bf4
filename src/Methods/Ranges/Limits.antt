-- ===== src/Methods/Ranges/Limits.antt =====
-- Which ranges of a request are let through.
use v_exchanges.Prelude.{ℕ, ◌-◌, ◌/◌, ◌%◌, ◌≤◌, ◌<◌, ◌≡◌, ◌↔◌, some, ok, err, negsuc, ◌^◌, arith}
use native.Mathlib.Nat.{div-eq_of_lt}
use v_exchanges.Methods.Ranges.{span, limit, out_of_range, of_i32, ensure_allowed}

-- The difference of two timestamps is a span of seconds and smaller units, so that its millisecond
-- unit is what the whole seconds leave.
abbrev pub IsSpanOfSeconds : (ℕ → ℕ → ℕ) → Type 0
IsSpanOfSeconds get_milliseconds =
    (start end : ℕ) → start ≤ end → get_milliseconds start end ≡ ((end - start) / 1_000_000) % 1_000

module _ (get_milliseconds : ℕ → ℕ → ℕ) where
  -- A limit is let through exactly within the allowed range.
  pub limit_iff :
      (low high tf_ms n : ℕ)
      → (ensure_allowed get_milliseconds low high tf_ms (limit n) ≡ some (ok tt))
        ↔ ((low ≤ n) × (n ≤ high))
  unfolding ensure_allowed
  limit_iff low high tf_ms n = (λ h. ground arith, λ (a, b). ground arith)

  -- If the difference of two timestamps is a span of seconds and smaller units, then for a
  -- timeframe of a second or more a span of any length, whose end is not before its start, is let
  -- through, whatever the range.
  pub span_unlimited :
      (low high tf_ms start end : ℕ)
      → IsSpanOfSeconds get_milliseconds
      → 1_000 ≤ tf_ms
      → start ≤ end
      → ensure_allowed get_milliseconds low high tf_ms (span start (some end)) ≡ some (ok tt)
  unfolding ensure_allowed
  span_unlimited low high tf_ms start end h t o =
      let small : get_milliseconds start end < tf_ms = omega (arith, h start end o) in
      ground (arith, div-eq_of_lt small)

  -- A limit given as a negative `i32` wraps around to a `u32`, and is refused, as out of range, by
  -- every range that ends below the middle of the `u32`s.
  pub negative_limit :
      (low high tf_ms n : ℕ)
      → n < 2 ^ 31
      → high < 2 ^ 31
      → ensure_allowed get_milliseconds low high tf_ms (of_i32 (negsuc n))
        ≡ some (err (out_of_range (low, high) (2 ^ 32 - 1 - n)))
  unfolding ensure_allowed
  negative_limit low high tf_ms n small range = ground arith
