-- ===== src/Methods/Kucoin/Klines.antt =====
-- The candles of v_exchanges_methods/src/kucoin/market.rs. Parsing of numbers, timestamps, and the
-- cast of an `f64` to an `i64` are the libraries'.
pub mod Ascending
use v_exchanges.Prelude.{
  ℤ, ◌≡◌, ◌∙◌, sym, ap, refl, Option, none, some, List, [], ◌∷◌, map, Result, ok, err, Text, arith,
}
use mathlib.Core.List.{reverse}

-- The volumes and trades that KuCoin does not tell are left out.
pub record Kline (Time Float : Type 0) : Type 0 where
  pub open_time : Time
  pub open_ : Float
  pub high : Float
  pub low : Float
  pub close : Float
  pub volume_quote : Float

pub record Libraries (Time Float : Type 0) : Type 0 where
  pub parse_i64 : Text → Result Text ℤ
  pub parse_f64 : Text → Result Text Float
  pub as_i64 : Float → ℤ
  pub from_second : ℤ → Result Text Time
  pub from_millisecond : ℤ → Result Text Time

abbrev pub and_then : {A B E : Type 0} → Result E A → (A → Result E B) → Result E B
and_then (ok a) f = f a
and_then (err e) f = err e

-- A loop over rows that skips some and ends at the first error.
abbrev pub read : {Row E A : Type 0} → (Row → Option (Result E A)) → List Row → Result E (List A)
read kline [] = ok []
read kline (row ∷ rows) =
    let rest = read kline rows in
    elim (kline row) [ none ↦ rest | some r ↦ and_then r (λ k. and_then rest (λ ks. ok (k ∷ ks))) ]

module _ {Time Float : Type 0} (lib : Libraries Time Float) where
  open lib use {parse_i64, parse_f64, as_i64, from_second, from_millisecond}

  -- A row of the spot market: the time in seconds, open, close, high, low, volume and turnover.
  abbrev pub spot_kline : List Text → Option (Result Text (Kline Time Float))
  spot_kline (time ∷ open_ ∷ close ∷ high ∷ low ∷ volume ∷ turnover ∷ _) = some (
      and_then (parse_i64 time) λ secs. and_then (parse_f64 open_) λ o.
        and_then (parse_f64 high) λ h. and_then (parse_f64 low) λ l. and_then (parse_f64 close) λ c.
          and_then (from_second secs) λ t. and_then (parse_f64 turnover) λ v.
            ok
              (record { open_time = t; open_ = o; high = h; low = l; close = c; volume_quote = v }))
  spot_kline _ = none

  -- The candles of `klines`, for the rows of a response.
  unfoldable pub klines : List (List Text) → Result Text (List (Kline Time Float))
  klines rows = read spot_kline (reverse rows)

  -- A row of futures: the time in milliseconds, open, high, low, close, volume and turnover.
  abbrev pub futures_kline : List Float → Option (Result Text (Kline Time Float))
  futures_kline (time ∷ open_ ∷ high ∷ low ∷ close ∷ volume ∷ turnover ∷ _) = some (
      and_then (from_millisecond (as_i64 time)) λ t. ok (record {
        open_time = t;
        open_ = open_;
        high = high;
        low = low;
        close = close;
        volume_quote = turnover;
      }))
  futures_kline _ = none

  -- The candles of `futures::klines`.
  unfoldable pub futures_klines : List (List Float) → Result Text (List (Kline Time Float))
  futures_klines rows = read futures_kline rows
