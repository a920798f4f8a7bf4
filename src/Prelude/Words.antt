-- ===== src/Prelude/Words.antt =====
-- Unsigned machine words as native numbers. Overflowing `+` and `*` wrap, as in a release build.
use Prim.Native.Nat.{ℕ, ◌*◌, ◌^◌, min}

abbrev pub u64_mod : ℕ
u64_mod = 2 ^ 64

abbrev pub u64_max : ℕ
u64_max = 18_446_744_073_709_551_615

abbrev pub u32_max : ℕ
u32_max = 4_294_967_295

-- `u64::saturating_mul`
abbrev pub saturating_mul : ℕ → ℕ → ℕ
saturating_mul a b = min (a * b) u64_max
