-- ===== src/Core/Decimals/Exact.antt =====
-- The texts of decimal numbers, and the prices and quantities they are read as.
use v_exchanges.Prelude.{
  Bool, true, false, ℕ, ◌+◌, ◌-◌, ◌*◌, ◌^◌, ◌%◌, ◌≤◌, ◌≡◌, ◌≢◌, refl, sym, ◌∙◌, ℤ, pos, [], ◌∷◌,
  ◌++◌, some, Text, ok, length, u32_max, arith,
}
use mathlib.Core.Path.{ap, ap₂}
use native.Mathlib.Nat.{pow-suc}
use v_exchanges.Core.Numbers.{
  ParseIntError, scan, parse_u32, parse_i32, minus, opposite, map_ok, i32_max,
}
use v_exchanges.Core.Decimals.{dot, at_dot, price_from_str, qty_from_str}

-- Every character is a digit.
abbrev pub AreDigits : Text → Type 0
AreDigits [] = Unit
AreDigits (c ∷ s) = (48 ≤ c) × (c ≤ 57) × AreDigits s

-- The number that digits spell behind `n`.
abbrev pub value : Text → ℕ → ℕ
value [] n = n
value (c ∷ s) n = value s (n * 10 + (c - 48))

AreDigits-append : (s t : Text) → AreDigits s → AreDigits t → AreDigits (s ++ t)
AreDigits-append [] t p q = q
AreDigits-append (c ∷ s) t (low, high, p) q = (low, high, AreDigits-append s t p q)

le-value : (s : Text) (n : ℕ) → n ≤ value s n
le-value [] n = omega arith
le-value (c ∷ s) n = omega (arith, le-value s (n * 10 + (c - 48)))

scan-value :
    (e : ParseIntError) (bound : ℕ) (s : Text) (n : ℕ)
    → AreDigits s
    → value s n ≤ bound
    → scan e bound s n ≡ ok (value s n)
unfolding scan
scan-value e bound [] n d fits = refl
scan-value e bound (c ∷ s) n (low, high, d) fits =
    let m = n * 10 + (c - 48) in ground (arith, scan-value e bound s m d fits, le-value s m)

value-append : (s t : Text) (n : ℕ) → value (s ++ t) n ≡ value t (value s n)
value-append [] t n = refl
value-append (c ∷ s) t n = value-append s t (n * 10 + (c - 48))

regroup : (n d p v : ℕ) → (n * 10 + d) * p + v ≡ n * (p * 10) + ((0 + d) * p + v)
regroup n d p v = grind arith

value-shift : (s : Text) (n : ℕ) → value s n ≡ n * 10 ^ length s + value s 0
value-shift [] n = omega arith
value-shift (c ∷ s) n =
    let d = c - 48 in
    value-shift s (n * 10 + d)
    ∙ regroup n d (10 ^ length s) (value s 0)
    ∙ sym (ap₂ (λ p v. n * p + v) (pow-suc 10 (length s)) (value-shift s (0 + d)))

at_dot-digits : (s t : Text) → AreDigits s → at_dot (s ++ dot ∷ t) ≡ some (s, t)
unfolding at_dot
at_dot-digits [] t d = refl
at_dot-digits (c ∷ s) t (low, high, d) = ground (arith, at_dot-digits s t d)

-- The number that the digits around a dot spell, without the dot.
abbrev pub fixed : Text → Text → ℕ
fixed whole part = value whole 0 * 10 ^ length part + value part 0

fixed-value : (whole part : Text) → value (whole ++ part) 0 ≡ fixed whole part
fixed-value whole part = value-append whole part 0 ∙ value-shift part (value whole 0)

joined-scan :
    (e : ParseIntError) (bound : ℕ) (whole part : Text)
    → AreDigits whole
    → AreDigits part
    → fixed whole part ≤ bound
    → scan e bound (whole ++ part) 0 ≡ ok (fixed whole part)
joined-scan e bound whole part d d' fits =
    let same = fixed-value whole part in
    scan-value e bound (whole ++ part) 0 (AreDigits-append whole part d d') (rw same fits)
    ∙ ap ok same

parse_u32-digits :
    (s : Text) → s ≢ [] → AreDigits s → parse_u32 s ≡ scan ParseIntError.pos_overflow u32_max s 0
unfolding parse_u32
parse_u32-digits [] n d = absurd (n refl)
parse_u32-digits (c ∷ s) n (low, high, d) = ground arith

parse_i32-digits :
    (s : Text)
    → s ≢ []
    → AreDigits s
    → (parse_i32 s ≡ map_ok pos (scan ParseIntError.pos_overflow i32_max s 0))
      × (parse_i32 (minus ∷ s)
          ≡ map_ok opposite (scan ParseIntError.neg_overflow (i32_max + 1) s 0))
unfolding parse_i32
parse_i32-digits [] n d = absurd (n refl)
parse_i32-digits (c ∷ s) n (low, high, d) = (ground arith, refl)

at_dot-negative : (s t : Text) → AreDigits s → at_dot (minus ∷ (s ++ dot ∷ t)) ≡ some (minus ∷ s, t)
unfolding at_dot
at_dot-negative s t d = rw (at_dot-digits s t d) refl

-- A quantity is read from digits with a dot before, between or behind them, of which there is one
-- at least, as long as the number they spell without the dot is a `u32`. It is then that number,
-- which is the whole part times the power of ten of the precision, and the part behind the dot.
pub qty_from_str-exact :
    (whole part : Text)
    → whole ++ part ≢ []
    → AreDigits whole
    → AreDigits part
    → fixed whole part ≤ u32_max
    → qty_from_str (whole ++ dot ∷ part)
      ≡ ok (record { raw = fixed whole part; precision = length part % 256 })
unfolding qty_from_str
qty_from_str-exact whole part n d d' fits =
    rw
      (
        qty_from_str,
        at_dot-digits whole part d,
        parse_u32-digits (whole ++ part) n (AreDigits-append whole part d d'),
        joined-scan ParseIntError.pos_overflow u32_max whole part d d' fits,
      )
      refl

-- A text with or without a minus in front, the integer, and the largest absolute value of an `i32`.
abbrev pub with_sign : Bool → Text → Text
with_sign true s = minus ∷ s
with_sign false s = s

abbrev pub signed_raw : Bool → ℕ → ℤ
signed_raw true n = opposite n
signed_raw false n = pos n

abbrev pub largest : Bool → ℕ
largest true = i32_max + 1
largest false = i32_max

-- A price is read from the same texts, with or without a minus in front, as long as the number is
-- an `i32`.
pub price_from_str-exact :
    (negative : Bool) (whole part : Text)
    → whole ++ part ≢ []
    → AreDigits whole
    → AreDigits part
    → fixed whole part ≤ largest negative
    → price_from_str (with_sign negative (whole ++ dot ∷ part))
      ≡ ok (record { raw = signed_raw negative (fixed whole part); precision = length part % 256 })
unfolding price_from_str
price_from_str-exact false whole part n d d' fits =
    rw
      (
        price_from_str,
        at_dot-digits whole part d,
        (parse_i32-digits (whole ++ part) n (AreDigits-append whole part d d')).0,
        joined-scan ParseIntError.pos_overflow i32_max whole part d d' fits,
      )
      refl
price_from_str-exact true whole part n d d' fits =
    rw
      (
        price_from_str,
        at_dot-negative whole part d,
        (parse_i32-digits (whole ++ part) n (AreDigits-append whole part d d')).1,
        joined-scan ParseIntError.neg_overflow (i32_max + 1) whole part d d' fits,
      )
      refl
