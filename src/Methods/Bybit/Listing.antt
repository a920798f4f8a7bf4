-- ===== src/Methods/Bybit/Listing.antt =====
-- The listing of pairs of v_exchanges_methods/src/bybit/market.rs. Pairs, timestamps and the parsing
-- of a `u8` are the libraries'; a failed `expect` is a panic, `none`.
pub mod Last
use v_exchanges.Prelude.{
  ℤ, pos, ℕ, Bool, true, false, Option, none, some, List, Text, codes, Eq, Map, ◌==◌, ◌>>=◌,
  if◌then◌else◌,
}
use v_exchanges.Methods.Info.{Instrument, perp_market, perp_inverse_market, PairInfo, ExchangeInfo}
use v_exchanges.Methods.Tables.{collect, read_into, count_significant_decimals}

-- `InstrumentInfo` and `SpotInfo`, with the fields of their filters.
pub record InstrumentInfo : Type 0 where
  pub symbol : Text
  pub price_scale : Text
  pub delivery_time : ℤ
  pub qty_step : Text

pub record SpotInfo : Type 0 where
  pub symbol : Text
  pub base_precision : Text
  pub tick_size : Text

-- The category that is asked for, but for the spot market.
abbrev pub category : Instrument → Option Text
category perp_market = some (codes "linear")
category perp_inverse_market = some (codes "inverse")
category _ = none

abbrev pub is_zero : ℤ → Bool
is_zero (pos n) = n == 0
is_zero _ = Bool.false

abbrev pub or_zero : Option ℕ → ℕ
or_zero none = 0
or_zero (some n) = n

module _ {Pair : Type 0} ⦃e : Eq Pair⦄ (parse_pair : Text → Option Pair)
    (from_millisecond : ℤ → Option ℤ) (parse_u8 : Text → Option ℕ) where
  abbrev pub spot_entry : SpotInfo → Option (Pair × PairInfo)
  spot_entry i = parse_pair i.symbol >>= λ p. some (
    p,
    record {
      price_precision = count_significant_decimals i.tick_size;
      qty_precision = count_significant_decimals i.base_precision;
      delivery_date = none;
    },
  )

  -- `exchange_info` of the spot market, for the time and the list of the response.
  unfoldable pub spot_exchange_info : ℤ → List SpotInfo → Option (ExchangeInfo Pair)
  spot_exchange_info time list = from_millisecond time >>= λ server_time.
      some (record { server_time = server_time; pairs = collect spot_entry list (λ _. none) })

  abbrev pub delivery : ℤ → Option (Option ℤ)
  delivery ms = if is_zero ms then some none else (from_millisecond ms >>= λ t. some (some t))

  -- A symbol that is no pair is skipped before its date is read.
  abbrev pub info_of : Option Pair → InstrumentInfo → Option (Option (Pair × PairInfo))
  info_of none i = some none
  info_of (some p) i = delivery i.delivery_time >>= λ date. some (
      some (
        p,
        record {
          price_precision = or_zero (parse_u8 i.price_scale);
          qty_precision = count_significant_decimals i.qty_step;
          delivery_date = date;
        },
      ))

  abbrev pub entry : InstrumentInfo → Option (Option (Pair × PairInfo))
  entry i = info_of (parse_pair i.symbol) i

  -- `exchange_info` of contracts.
  unfoldable pub exchange_info : ℤ → List InstrumentInfo → Option (ExchangeInfo Pair)
  exchange_info time list = from_millisecond time >>= λ server_time.
      read_into entry list (λ _. none) >>= λ pairs.
      some (record { server_time = server_time; pairs = pairs })
