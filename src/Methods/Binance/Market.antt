-- ===== src/Methods/Binance/Market.antt =====
-- The market data of Binance: v_exchanges_methods/src/binance/market.rs, and the listing and prices of
-- the spot market, binance/spot/market.rs. Times of candles are milliseconds since the epoch, behind
-- it. The client, JSON, pairs, timestamps and what is computed of `f64` are arguments; a failed
-- `unwrap`, or an `i64` that overflows, is a panic, `none`.
pub mod Finished
use v_exchanges.Prelude.{
  ℕ, ℤ, ◌+◌, ◌^◌, Bool, true, false, not, Option, none, some, List, [], ◌∷◌, map, Text, codes,
  text_beq, text_eq, Eq, Map, insert, is_empty, Result, ok, err, assert, ltb, ◌>>=◌, ◌>>◌,
  if◌then◌else◌,
}
use v_exchanges.Adapters.Binance.Urls.{BinanceHttpUrl, spot, futures_usd_m}
use v_exchanges.Methods.Info.{
  Instrument, spot_market, perp_market, PairInfo, ExchangeInfo, MethodError, method_not_supported,
}
use v_exchanges.Methods.Candles.{Kline, OpenInterest}
use v_exchanges.Methods.Ranges.{RequestRange, RequestRangeError, ensure_allowed}
use v_exchanges.Methods.Requests.{Params, ExchangeName, text, no_params, serialize, join_params}
use v_exchanges.Methods.Tables.{collect, keep_all, count_significant_decimals}

-- `KlineResponse`, as far as it is read, in the order of its fields.
pub record KlineResponse (Float : Type 0) : Type 0 where
  pub open_time : ℕ
  pub open_ : Float
  pub close : Float
  pub high : Float
  pub low : Float
  pub quote_asset_volume : Float
  pub number_of_trades : ℕ
  pub taker_buy_quote_asset_volume : Float

module _ {Time Float : Type 0} (from_millisecond : ℕ → Option Time) where
  abbrev pub candle : Time → KlineResponse Float → Kline Time Float
  candle t k = record {
    open_time = t;
    open_ = k.open_;
    high = k.high;
    low = k.low;
    close = k.close;
    volume_quote = k.quote_asset_volume;
    trades = some k.number_of_trades;
    taker_buy_volume_quote = some k.taker_buy_quote_asset_volume;
  }

  -- A row with the clock at its turn is kept once `most`, 0.99 of the timeframe, has passed.
  abbrev pub finished : ℕ → ℕ × KlineResponse Float → Bool
  finished most (now, k) = ltb (k.open_time + most) now

  abbrev pub kline : ℕ → ℕ × KlineResponse Float → Option (Option (Kline Time Float))
  kline most (now, k) =
      assert (ltb (k.open_time + most) (2 ^ 63))
      >> (if finished most (now, k)
          then (from_millisecond k.open_time >>= λ t. some (some (candle t k)))
          else some none)

  -- The candles of a response, each row with the clock at its turn.
  unfoldable pub klines : ℕ → List (ℕ × KlineResponse Float) → Option (List (Kline Time Float))
  klines most rows = keep_all (kline most) rows

pub record Request : Type 0 where
  pub endpoint : Text
  pub base_url : BinanceHttpUrl
  pub params : Params

module _ (get_milliseconds : ℕ → ℕ → ℕ) (as_millisecond : ℕ → ℕ) where
  -- `range.serialize`, joined to the other parameters.
  abbrev pub with_range : Params → RequestRange → Option Params
  with_range base range = serialize as_millisecond ExchangeName.binance range >>= λ params.
      some (join_params base params)

  abbrev pub klines_source : Instrument → Option (Text × BinanceHttpUrl)
  klines_source spot_market = some (codes "/api/v3/klines", spot)
  klines_source perp_market = some (codes "/fapi/v1/klines", futures_usd_m)
  klines_source _ = none

  -- What `klines` asks for, of a symbol's name and a timeframe's name and milliseconds.
  unfoldable pub klines_request :
      Text → Text → ℕ → Instrument → RequestRange → Option (Result RequestRangeError Request)
  klines_request symbol interval tf_ms instrument range =
      ensure_allowed get_milliseconds 1 1_000 tf_ms range >>= λ allowed. elim allowed [
        | err e ↦ some (err e)
        | ok _ ↦
            with_range
              (insert (codes "symbol") (text symbol)
                (insert (codes "interval") (text interval) no_params))
              range
            >>= λ params. klines_source instrument >>= λ (endpoint, url).
                some (ok (record { endpoint = endpoint; base_url = url; params = params }))
      ]

-- `SpotSymbol`: the tick size is that of the price filter.
pub record SpotSymbol : Type 0 where
  pub symbol : Text
  pub status : Text
  pub base_asset_precision : ℕ
  pub filters : List (Text × Option Text)

abbrev pub tick_size_in : List (Text × Option Text) → Option Text
tick_size_in [] = none
tick_size_in ((filter_type, none) ∷ filters) = tick_size_in filters
tick_size_in ((filter_type, some size) ∷ filters) =
    let rest = tick_size_in filters in
    if text_beq filter_type (codes "PRICE_FILTER") then some size else rest

-- `From<SpotSymbol> for PairInfo`
abbrev pub spot_info : SpotSymbol → PairInfo
spot_info s = record {
  price_precision = elim (tick_size_in s.filters) [
    | none ↦ 0
    | some size ↦ count_significant_decimals size
  ];
  qty_precision = s.base_asset_precision;
  delivery_date = none;
}

module _ {Float Pair : Type 0} ⦃e : Eq Pair⦄ (parse_pair : Text → Option Pair) where
  abbrev pub spot_price : Text × Float → Option (Pair × Float)
  spot_price (symbol, price) = parse_pair symbol >>= λ p. some (p, price)

  -- `prices` of the spot market, for the rows of the response.
  unfoldable pub spot_prices : List (Text × Float) → Map Pair Float
  spot_prices rows = collect spot_price rows (λ _. none)

  -- `prices` of futures, binance/perp/market.rs, for the rows of the response.
  unfoldable pub perp_prices : List (Text × Float) → Map Pair Float
  perp_prices rows = collect spot_price rows (λ _. none)

module _ {Pair : Type 0} ⦃e : Eq Pair⦄ (parse_pair : Text → Option Pair)
    (from_millisecond : ℤ → Option ℤ) where
  abbrev pub spot_listed : SpotSymbol → Option (Pair × PairInfo)
  spot_listed s =
      if text_beq s.status (codes "TRADING")
      then (parse_pair s.symbol >>= λ p. some (p, spot_info s))
      else none

  -- `From<SpotExchangeInfoResponse> for ExchangeInfo`
  unfoldable pub spot_exchange_info : ℤ → List SpotSymbol → Option (ExchangeInfo Pair)
  spot_exchange_info server_time symbols = from_millisecond server_time >>= λ time.
      some (record { server_time = time; pairs = collect spot_listed symbols (λ _. none) })

-- `OpenInterestResponse`, as far as it is read.
pub record OpenInterestResponse (Float : Type 0) : Type 0 where
  pub sum_open_interest : Float
  pub sum_open_interest_value : Float
  pub cmc_circulating_supply : Float
  pub timestamp : ℕ

module _ {Time Float : Type 0} (from_millisecond : ℕ → Option Time) where
  abbrev pub interest_of : OpenInterestResponse Float → Option (Option (OpenInterest Time Float))
  interest_of r = from_millisecond r.timestamp >>= λ t. some (
      some (record {
        val_asset = r.sum_open_interest;
        val_quote = some r.sum_open_interest_value;
        marketcap = some r.cmc_circulating_supply;
        timestamp = t;
      }))

  -- `open_interest`, for the responses.
  unfoldable pub open_interest :
      List (OpenInterestResponse Float) → Option (Result Text (List (OpenInterest Time Float)))
  open_interest [] = some (err (codes "No open interest data returned"))
  open_interest (r ∷ rs) = keep_all interest_of (r ∷ rs) >>= λ xs. some (ok xs)
