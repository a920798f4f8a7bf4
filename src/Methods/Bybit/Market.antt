-- ===== src/Methods/Bybit/Market.antt =====
-- The market data of Bybit: v_exchanges_methods/src/bybit/market.rs. Times are milliseconds since the
-- epoch, behind it. The client, JSON, pairs, timestamps, the parsing of a `u8` and what is computed of
-- `f64` are arguments; a failed `unwrap` or `expect`, an `i64` that overflows, an index out of range
-- and what the code calls unreachable are panics, `none`.
use v_exchanges.Prelude.{
  ℕ, ◌+◌, ◌^◌, Option, none, some, List, [], ◌∷◌, Text, codes, text_eq, Eq, Map, insert, Result, ok,
  err, assert, ltb, ◌>>=◌, ◌>>◌, if◌then◌else◌,
}
use v_exchanges.Methods.Info.{Instrument, perp_market, perp_inverse_market}
use v_exchanges.Methods.Ranges.{RequestRange, RequestRangeError, ensure_allowed}
use v_exchanges.Methods.Requests.{Params, ExchangeName, text, no_params, serialize, join_params}
use v_exchanges.Methods.Tables.{collect, offered, keep_all}
use v_exchanges.Methods.Candles.{Kline, OpenInterest}

-- `KlineData`, as the code takes its parts.
pub record KlineData (Float : Type 0) : Type 0 where
  pub start : ℕ
  pub first : Float
  pub second : Float
  pub third : Float
  pub fourth : Float
  pub fifth : Float
  pub sixth : Float

module _ {Time Float : Type 0} (from_millisecond : ℕ → Option Time) where
  abbrev pub candle : Time → KlineData Float → Kline Time Float
  candle t k = record {
    open_time = t;
    open_ = k.first;
    close = k.second;
    high = k.third;
    low = k.fourth;
    volume_quote = k.fifth;
    trades = none;
    taker_buy_volume_quote = none;
  }

  abbrev pub kline : ℕ → ℕ → KlineData Float → Option (Option (Kline Time Float))
  kline tf_ms time k =
      assert (ltb (k.start + tf_ms) (2 ^ 63))
      >> (if ltb (k.start + tf_ms) time
          then (from_millisecond k.start >>= λ t. some (some (candle t k)))
          else some none)

  -- `klines`, for the rows of a response and its time.
  unfoldable pub klines : ℕ → ℕ → List (KlineData Float) → Option (List (Kline Time Float))
  klines tf_ms time rows = keep_all (kline tf_ms time) rows

module _ (get_milliseconds : ℕ → ℕ → ℕ) (as_millisecond : ℕ → ℕ) where
  -- The parameters of `klines` and of `open_interest`, which differ in the name of the interval and
  -- in the largest limit.
  abbrev pub params_of :
      Text → ℕ → Text → Text → ℕ → RequestRange → Option (Result RequestRangeError Params)
  params_of interval_name largest symbol interval tf_ms range =
      ensure_allowed get_milliseconds 1 largest tf_ms range >>= λ allowed. elim allowed [
        | err e ↦ some (err e)
        | ok _ ↦ serialize as_millisecond ExchangeName.bybit range >>= λ params. some (
            ok (
              join_params
                (insert (codes "category") (text (codes "linear")) (
                  insert (codes "symbol") (text symbol)
                    (insert interval_name (text interval) no_params)))
                params))
      ]

  unfoldable pub klines_params :
      Text → Text → ℕ → RequestRange → Option (Result RequestRangeError Params)
  klines_params = params_of (codes "interval") 1_000

  unfoldable pub open_interest_params :
      Text → Text → ℕ → RequestRange → Option (Result RequestRangeError Params)
  open_interest_params = params_of (codes "intervalTime") 200

-- `TickerPriceEntry`
pub record TickerPriceEntry (Float : Type 0) : Type 0 where
  pub symbol : Text
  pub last_price : Option Float

module _ {Float Pair : Type 0} ⦃e : Eq Pair⦄ (parse_pair : Text → Option Pair) where
  abbrev pub price_of : Option (List Pair) → TickerPriceEntry Float → Option (Pair × Float)
  price_of pairs entry =
      entry.last_price >>= λ price. parse_pair entry.symbol >>= λ p. offered pairs p price

  -- `prices`, for the list of the response.
  unfoldable pub prices : Option (List Pair) → List (TickerPriceEntry Float) → Map Pair Float
  prices pairs entries = collect (price_of pairs) entries (λ _. none)

module _ {Time Float : Type 0} (from_millisecond : ℕ → Option Time)
    (divide : Float → Float → Float) where
  -- The value in the asset, and in the quote.
  abbrev pub values : Instrument → Option Float → Float → Option (Float × Option Float)
  values perp_inverse_market none value = none
  values perp_inverse_market (some price) value = some (divide value price, some value)
  values perp_market price value = some (value, none)
  values _ price value = none

  abbrev pub interest :
      Instrument → Option Float → Float × ℕ → Option (Option (OpenInterest Time Float))
  interest instrument price (value, timestamp) = values instrument price value >>= λ (asset, quote).
      from_millisecond timestamp >>= λ t.
      some (some (record { val_asset = asset; val_quote = quote; marketcap = none; timestamp = t }))

  abbrev pub first_price : List Float → Option Float
  first_price [] = none
  first_price (price ∷ _) = some price

  -- The price that is asked for, for an inverse contract alone, among the tickers of its request.
  abbrev pub asked_price : Instrument → List Float → Option (Option Float)
  asked_price perp_inverse_market tickers = first_price tickers >>= λ price. some (some price)
  asked_price _ tickers = some none

  -- `open_interest`, for the list of the response and the last prices of the tickers.
  unfoldable pub open_interest :
      Instrument
      → List Float
      → List (Float × ℕ)
      → Option (Result Text (List (OpenInterest Time Float)))
  open_interest instrument tickers [] = some (err (codes "No open interest data returned"))
  open_interest instrument tickers (row ∷ rows) = asked_price instrument tickers >>= λ price.
      keep_all (interest instrument price) (row ∷ rows) >>= λ xs. some (ok xs)
