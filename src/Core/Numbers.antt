-- ===== src/Core/Numbers.antt =====
-- `str::parse` of the standard library for `i32` and `u32`, as v_exchanges_core/src/lib.rs uses it.
use v_exchanges.Prelude.{
  ℕ, ◌+◌, ◌-◌, ◌*◌, ℤ, pos, negsuc, ◌||◌, [], ◌∷◌, Text, codes, Result, ok, err, ltb, ◌==◌,
  if◌then◌else◌, u32_max,
}

pub data ParseIntError : Type 0 where
  empty invalid_digit pos_overflow neg_overflow : ParseIntError

abbrev pub to_string : ParseIntError → Text
to_string empty = codes "cannot parse integer from empty string"
to_string invalid_digit = codes "invalid digit found in string"
to_string pos_overflow = codes "number too large to fit in target type"
to_string neg_overflow = codes "number too small to fit in target type"

-- The digits behind a number `n`, up to a bound.
unfoldable pub scan : ParseIntError → ℕ → Text → ℕ → Result ParseIntError ℕ
scan overflow bound [] n = ok n
scan overflow bound (c ∷ s) n =
    let m = n * 10 + (c - 48) in
    let rest = scan overflow bound s m in
    if ltb c 48 || ltb 57 c then err invalid_digit else if ltb bound m then err overflow else rest

-- Behind a sign there is one digit at least.
abbrev pub signed : ParseIntError → ℕ → Text → Result ParseIntError ℕ
signed overflow bound [] = err invalid_digit
signed overflow bound (c ∷ s) = scan overflow bound (c ∷ s) 0

abbrev pub plus : ℕ
plus = 43

abbrev pub minus : ℕ
minus = 45

unfoldable pub parse_u32 : Text → Result ParseIntError ℕ
unfolding scan
parse_u32 [] = err empty
parse_u32 (c ∷ s) =
    if c == plus then signed pos_overflow u32_max s else scan pos_overflow u32_max (c ∷ s) 0

abbrev pub opposite : ℕ → ℤ
opposite n = if n == 0 then pos 0 else negsuc (n - 1)

abbrev pub i32_max : ℕ
i32_max = 2_147_483_647

abbrev pub map_ok : {A B : Type 0} → (A → B) → Result ParseIntError A → Result ParseIntError B
map_ok f (ok a) = ok (f a)
map_ok f (err e) = err e

unfoldable pub parse_i32 : Text → Result ParseIntError ℤ
unfolding scan
parse_i32 [] = err empty
parse_i32 (c ∷ s) =
    if c == plus
    then map_ok pos (signed pos_overflow i32_max s)
    else if c == minus
    then map_ok opposite (signed neg_overflow (i32_max + 1) s)
    else map_ok pos (scan pos_overflow i32_max (c ∷ s) 0)
