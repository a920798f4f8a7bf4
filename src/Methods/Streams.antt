-- ===== src/Methods/Streams.antt =====
-- What the streams of v_exchanges_methods/src/binance/ws.rs and bybit/ws.rs share: their events, the
-- book updates they make, and what is read by libraries: pairs, prices and quantities at a
-- precision, the fields of an event's JSON, and timestamps. A failed `expect`, `unwrap` or match is
-- a panic, `none`.
use v_exchanges.Prelude.{ℕ, ℤ, Bool, Option, List, Text, map}
use v_exchanges.Methods.Trades.{PrecisionPriceQty}

pub record BookShape : Type 0 where
  pub ts_event : ℤ
  pub ts_init : ℤ
  pub ts_last : ℤ
  pub prec : PrecisionPriceQty
  pub bids : List (ℤ × ℕ)
  pub asks : List (ℤ × ℕ)

pub data BookUpdate : Type 0 where
  snapshot : BookShape → BookUpdate
  batch_delta : BookShape → Bool → BookUpdate

pub record Readers (Pair : Type 0) : Type 0 where
  pub parse_pair : Text → Option Pair
  pub parse_price : PrecisionPriceQty → Text → ℤ
  pub parse_qty : PrecisionPriceQty → Text → ℕ
  pub from_millisecond : ℤ → Option ℤ

module _ {Pair : Type 0} (lib : Readers Pair) where
  open lib use {parse_price, parse_qty}

  abbrev pub parse_level : PrecisionPriceQty → Text × Text → ℤ × ℕ
  parse_level prec (p, q) = (parse_price prec p, parse_qty prec q)

  abbrev pub parse_levels : PrecisionPriceQty → List (Text × Text) → List (ℤ × ℕ)
  parse_levels prec = map (parse_level prec)
