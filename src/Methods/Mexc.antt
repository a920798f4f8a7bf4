-- ===== src/Methods/Mexc.antt =====
-- The market data of MEXC: v_exchanges_methods/src/mexc/market.rs. Timestamps, pairs and numbers are
-- the libraries'; an index out of range is a panic, `none`.
pub mod Columns
use v_exchanges.Prelude.{
  ℕ, ℤ, pos, Bool, true, false, not, Option, none, some, List, [], ◌∷◌, Text, codes, text_beq, Eq,
  Map, Result, ok, err, get_elem?, length, ◌+◌, ◌++◌, ◌%◌, ◌^◌, low_32, ◌==◌, ◌>>=◌, if◌then◌else◌,
}
use v_exchanges.Methods.Candles.{Kline}
use v_exchanges.Methods.Info.{PairInfo, ExchangeInfo}
use v_exchanges.Methods.Tables.{collect}

-- The interval of a timeframe's name.
unfoldable pub interval_of : Text → Result Text Text
interval_of tf =
    if text_beq tf (codes "1m")
    then ok (codes "Min1")
    else if text_beq tf (codes "5m")
    then ok (codes "Min5")
    else if text_beq tf (codes "15m")
    then ok (codes "Min15")
    else if text_beq tf (codes "30m")
    then ok (codes "Min30")
    else if text_beq tf (codes "60m")
    then ok (codes "Min60")
    else if text_beq tf (codes "4h")
    then ok (codes "Hour4")
    else if text_beq tf (codes "1d")
    then ok (codes "Day1")
    else if text_beq tf (codes "1W")
    then ok (codes "Week1")
    else if text_beq tf (codes "1M")
    then ok (codes "Month1")
    else err (codes "Unsupported timeframe: " ++ tf)

-- `KlineData`, a list for each field, as far as it is read.
pub record KlineData (Float : Type 0) : Type 0 where
  pub time : List ℤ
  pub open_ : List Float
  pub close : List Float
  pub high : List Float
  pub low : List Float
  pub amount : List Float

module _ {Time Float : Type 0} (from_second : ℤ → Result Text Time) where
  -- What the turn with the index `i` makes, of which the time is `secs`: a panic, an error or a candle.
  abbrev pub candle : KlineData Float → ℕ → ℤ → Option (Result Text (Kline Time Float))
  candle d i secs = get_elem? d.open_ i >>= λ o. get_elem? d.high i >>= λ h.
      get_elem? d.low i >>= λ l. get_elem? d.close i >>= λ c. elim (from_second secs) [
        | err e ↦ some (err e)
        | ok t ↦ get_elem? d.amount i >>= λ v. some (
            ok (record {
              open_time = t;
              open_ = o;
              high = h;
              low = l;
              close = c;
              volume_quote = v;
              trades = none;
              taker_buy_volume_quote = none;
            }))
      ]

  abbrev pub klines_from :
      KlineData Float → ℕ → List ℤ → Option (Result Text (List (Kline Time Float)))
  klines_from d i [] = some (ok [])
  klines_from d i (secs ∷ times) = candle d i secs >>= λ r. elim r [
    | err e ↦ some (err e)
    | ok k ↦ klines_from d (i + 1) times >>= λ rest. elim rest [
      | err e ↦ some (err e)
      | ok ks ↦ some (ok (k ∷ ks))
    ]
  ]

  -- The candles of `klines`, for the data of the response.
  unfoldable pub klines : KlineData Float → Option (Result Text (List (Kline Time Float)))
  klines d = klines_from d 0 d.time

-- `ContractInfo`, as far as it is read.
pub record ContractInfo : Type 0 where
  pub base_coin : Text
  pub quote_coin : Text
  pub price_scale : ℤ
  pub vol_decimal : ℤ
  pub state : ℤ

abbrev pub is_active : ℤ → Bool
is_active (pos n) = n == 0
is_active _ = Bool.false

-- `as u8` of an `i32`.
abbrev pub as_u8 : ℤ → ℕ
as_u8 z = low_32 z % 2 ^ 8

module _ {Pair : Type 0} ⦃e : Eq Pair⦄ (pair : Text → Text → Pair) where
  abbrev pub listed : ContractInfo → Option (Pair × PairInfo)
  listed c =
      if is_active c.state
      then some (
        pair c.base_coin c.quote_coin,
        record {
          price_precision = as_u8 c.price_scale;
          qty_precision = as_u8 c.vol_decimal;
          delivery_date = none;
        },
      )
      else none

  -- `exchange_info`, for the data of the response.
  unfoldable pub exchange_info : ℤ → List ContractInfo → ExchangeInfo Pair
  exchange_info now contracts = record {
    server_time = now;
    pairs = collect listed contracts (λ _. none);
  }
