-- ===== src/Core/Decimals.antt =====
-- `Price` and `Qty` of v_exchanges_core/src/lib.rs with `FromStr`. Lengths are in characters: a text
-- with any character of more than one byte is refused.
pub mod Exact
use v_exchanges.Prelude.{
  ℕ, ◌%◌, ℤ, Option, none, some, [], ◌∷◌, ◌++◌, Text, Result, ok, err, ◌==◌, if◌then◌else◌, length,
}
use v_exchanges.Core.Numbers.{parse_u32, parse_i32, to_string}

pub record Qty : Type 0 where
  pub raw : ℕ
  pub precision : ℕ

pub record Price : Type 0 where
  pub raw : ℤ
  pub precision : ℕ

abbrev pub dot : ℕ
dot = 46

abbrev onto : ℕ → Option (Text × Text) → Option (Text × Text)
onto c none = none
onto c (some (before, after)) = some (c ∷ before, after)

-- What stands before and behind the first dot that `find` meets.
unfoldable pub at_dot : Text → Option (Text × Text)
at_dot [] = none
at_dot (c ∷ s) = let rest = at_dot s in if c == dot then some ([], s) else onto c rest

-- `as u8`
abbrev pub precision_of : Text → ℕ
precision_of after = length after % 256

unfoldable pub price_from_str : Text → Result Text Price
unfolding at_dot parse_i32
price_from_str s = elim (at_dot s) [
  | some (before, after) ↦ elim (parse_i32 (before ++ after)) [
    | ok raw ↦ ok (record { raw = raw; precision = precision_of after })
    | err e ↦ err (to_string e)
  ]
  | none ↦ elim (parse_i32 s) [
    | ok raw ↦ ok (record { raw = raw; precision = 0 })
    | err e ↦ err (to_string e)
  ]
]

unfoldable pub qty_from_str : Text → Result Text Qty
unfolding at_dot parse_u32
qty_from_str s = elim (at_dot s) [
  | some (before, after) ↦ elim (parse_u32 (before ++ after)) [
    | ok raw ↦ ok (record { raw = raw; precision = precision_of after })
    | err e ↦ err (to_string e)
  ]
  | none ↦ elim (parse_u32 s) [
    | ok raw ↦ ok (record { raw = raw; precision = 0 })
    | err e ↦ err (to_string e)
  ]
]
