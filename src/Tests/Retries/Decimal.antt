-- ===== src/Tests/Retries/Decimal.antt =====
-- A concrete `Float`: numbers in tenths, rounded down, which are exact as the retries need them.
use v_exchanges.Prelude.{ℕ, ◌*◌, ◌/◌, ◌≤◌, ◌^◌, ◌≡◌, min, true, leb, ltb, u64_max, arith}
use v_exchanges.Retry.Float.{Float, IsExact}
use native.Mathlib.Nat.{mul-le-mul_left}

abbrev pub decimal : Float
decimal = record {
  F = ℕ;
  of_u64 = λ x. x * 10;
  mul = λ a b. (a * b) / 10;
  lt = ltb;
  le = leb;
  tenths = λ n. n;
  to_u64 = λ x. min (x / 10) u64_max;
}

grows :
    (x factor : ℕ)
    → x ≤ 2 ^ 53
    → leb 10 factor ≡ true
    → x ≤ min ((((x * 10) * factor) / 10) / 10) u64_max
grows x factor h k =
    let at_least : x * 10 ≤ x * factor = mul-le-mul_left x (ground arith) in ground arith

pub decimal-IsExact : IsExact decimal
decimal-IsExact = record { grows = grows }
