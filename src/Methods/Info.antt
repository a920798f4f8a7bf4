-- ===== src/Methods/Info.antt =====
-- What exchanges list: the types of v_exchanges_methods/src/core.rs, the errors of methods in
-- error.rs, and the cache of listings in front of the streams (binance/mod.rs, bybit/mod.rs). Maps
-- are read through their lookups; pairs are the library's. Timestamps are nanoseconds.
pub mod Listed
use v_exchanges.Prelude.{
  ℕ, ℤ, Bool, true, false, ◌≡◌, ◌↔◌, refl, Option, none, some, List, [], ◌∷◌, Result, ok, err, Map,
  Eq, insert, arith,
}
use v_exchanges.Methods.Trades.{PrecisionPriceQty}

-- The instruments that the methods tell apart.
pub data Instrument : Type 0 where
  spot_market perp_market margin_market perp_inverse_market other_market : Instrument

abbrev pub same_instrument : Instrument → Instrument → Bool
same_instrument spot_market spot_market = true
same_instrument perp_market perp_market = true
same_instrument margin_market margin_market = true
same_instrument perp_inverse_market perp_inverse_market = true
same_instrument other_market other_market = true
same_instrument _ _ = false

pub same_instrument_iff : (a b : Instrument) → (same_instrument a b ≡ true) ↔ (a ≡ b)
same_instrument_iff a b = ground arith

instance abbrev pub instrument_eq : Eq Instrument
instrument_eq = record { beq = same_instrument; beq_iff = same_instrument_iff }

pub record PairInfo : Type 0 where
  pub price_precision : ℕ
  pub qty_precision : ℕ
  -- None for a perpetual.
  pub delivery_date : Option ℤ

pub record ExchangeInfo (Pair : Type 0) : Type 0 where
  pub server_time : ℤ
  pub pairs : Map Pair PairInfo

-- The exchange is left out: the errors of each are its own.
pub data MethodError (Pair : Type 0) : Type 0 where
  method_not_implemented method_not_supported : Instrument → MethodError Pair
  pair_not_listed : Instrument → Pair → MethodError Pair

abbrev pub precision : PairInfo → PrecisionPriceQty
precision info = record { price = info.price_precision; qty = info.qty_precision }

module _ {Pair E : Type 0} where
  -- The listing of an instrument, which is asked for once.
  unfoldable pub cached_info :
      (Instrument → Result E (ExchangeInfo Pair))
      → Instrument
      → Map Instrument (ExchangeInfo Pair)
      → Result E (ExchangeInfo Pair) × Map Instrument (ExchangeInfo Pair)
  cached_info exchange_info instrument cache = elim (cache instrument) [
    | some info ↦ (ok info, cache)
    | none ↦ elim (exchange_info instrument) [
      | err e ↦ (err e, cache)
      | ok info ↦ (ok info, insert instrument info cache)
    ]
  ]

module _ {Pair E : Type 0} ⦃e : Eq Pair⦄ (of_method : MethodError Pair → E) where
  -- The precisions of the pairs, or the first that is not listed.
  unfoldable pub pair_precisions :
      Instrument → Map Pair PairInfo → List Pair → Result E (Map Pair PrecisionPriceQty)
  pair_precisions instrument infos [] = ok (λ _. none)
  pair_precisions instrument infos (pair ∷ pairs) = elim (infos pair) [
    | none ↦ err (of_method (pair_not_listed instrument pair))
    | some info ↦ elim (pair_precisions instrument infos pairs) [
      | err x ↦ err x
      | ok rest ↦ ok (insert pair (precision info) rest)
    ]
  ]
