-- ===== src/Prelude/Int.antt =====
-- Signed integers over the native numbers (the library's ℤ stands on the unary ones), and Rust's
-- conversion of an `i64` by `as i32`.
use Prim.Native.Nat.{ℕ, ◌-◌, ◌%◌, ◌^◌}
use v_exchanges.Prelude.Tests.{ltb, if◌then◌else◌}

-- `negsuc n` is the integer -(n + 1).
pub data ℤ : Type 0 where
  pos negsuc : ℕ → ℤ

-- The low 32 bits of an integer in two's complement, as `as u32` takes them.
abbrev pub low_32 : ℤ → ℕ
low_32 (pos n) = n % 2 ^ 32
low_32 (negsuc n) = 2 ^ 32 - 1 - n % 2 ^ 32

abbrev pub as_i32 : ℤ → ℤ
as_i32 z = let low = low_32 z in if ltb low (2 ^ 31) then pos low else negsuc (2 ^ 32 - 1 - low)
