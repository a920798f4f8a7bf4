-- ===== src/Tests/Listings.antt =====
-- The theorems on the listings and candles of Binance and MEXC.
use v_exchanges.Prelude.{
  ℕ, ℤ, pos, negsuc, ◌≡◌, refl, Option, none, some, List, [], ◌∷◌, ◌++◌, Text, codes, Result, ok,
  err, text_eq,
}
use v_exchanges.Methods.Info.{PairInfo, ExchangeInfo}
use v_exchanges.Methods.Binance.Futures as Futures
use v_exchanges.Methods.Binance.Futures.{FuturesSymbol, BinanceExchangeFutures, exchange_info}
use v_exchanges.Methods.Binance.Futures.Preferred.{preferred, exchange_info-preferred}
use v_exchanges.Methods.Binance.Market as Market
use v_exchanges.Methods.Binance.Market.{KlineResponse}
use v_exchanges.Methods.Binance.Market.Finished.{candles, finished_start, klines-finished_start}
use v_exchanges.Methods.Mexc as Mexc
use v_exchanges.Methods.Mexc.Columns.{Row, columns, row_candles, klines-columns}

abbrev libraries : Futures.Libraries Text
libraries = record {
  pair = λ base quote. base ++ codes "-" ++ quote;
  from_millisecond = λ ms. some ms;
}

abbrev future : ℕ → Text → Text → FuturesSymbol
future date status base = record {
  delivery_date = pos date;
  status = status;
  base_asset = base;
  quote_asset = codes "USDT";
  price_precision = 2;
  quantity_precision = 3;
}

-- A quarterly contract stands before the perpetual of its pair, and one contract no longer trades.
abbrev response : BinanceExchangeFutures
response = record {
  server_time = pos 1_700_000_000_000;
  symbols =
      future 1_711_000_000_000 (codes "TRADING") (codes "BTC")
      ∷ future 4_133_404_800_000 (codes "TRADING") (codes "BTC")
      ∷ future 1_711_000_000_000 (codes "TRADING") (codes "ETH")
      ∷ future 4_133_404_800_000 (codes "SETTLING") (codes "ETH")
      ∷ [];
}

abbrev info : Option ℤ → PairInfo
info date = record { price_precision = 2; qty_precision = 3; delivery_date = date }

abbrev contracts : List (Text × PairInfo)
contracts =
    (codes "BTC-USDT", info (some (pos 1_711_000_000_000)))
    ∷ (codes "BTC-USDT", info none)
    ∷ (codes "ETH-USDT", info (some (pos 1_711_000_000_000)))
    ∷ []

exchange_info-preferred_example :
    (i : ExchangeInfo Text) × (exchange_info libraries response ≡ some i)
    × (i.server_time ≡ pos 1_700_000_000_000)
    × ((p : Text) → i.pairs p ≡ preferred p contracts)
unfolding Futures.info_of
exchange_info-preferred_example =
    exchange_info-preferred libraries response (pos 1_700_000_000_000) contracts refl refl

abbrev row : ℕ → KlineResponse ℕ
row open_time = record {
  open_time = open_time;
  open_ = 10;
  close = 12;
  high = 13;
  low = 9;
  quote_asset_volume = 100;
  number_of_trades = 4;
  taker_buy_quote_asset_volume = 50;
}

-- The last minute has not passed.
abbrev rows : List (ℕ × KlineResponse ℕ)
rows =
    (180_000, row 0) ∷ (180_000, row 60_000) ∷ (180_001, row 120_000) ∷ (180_001, row 180_000) ∷ []

abbrev from_millisecond : ℕ → Option ℕ
from_millisecond ms = some ms

klines-finished_start_example :
    Market.klines from_millisecond 59_400 rows
    ≡ candles from_millisecond (finished_start from_millisecond 59_400 rows)
klines-finished_start_example = klines-finished_start from_millisecond 59_400 rows refl refl

abbrev from_second : ℤ → Result Text ℕ
from_second (pos s) = ok s
from_second (negsuc _) = err (codes "Invalid timestamp")

abbrev line : ℤ → Row ℕ
line time = record { time = time; open_ = 10; close = 12; high = 13; low = 9; amount = 100 }

klines-columns_example :
    Mexc.klines from_second (columns from_second (line (pos 60) ∷ line (pos 120) ∷ []))
    ≡ some (row_candles from_second (line (pos 60) ∷ line (pos 120) ∷ []))
klines-columns_example = klines-columns from_second (line (pos 60) ∷ line (pos 120) ∷ [])
