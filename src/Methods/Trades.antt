-- ===== src/Methods/Trades.antt =====
-- `BatchTrades` of v_exchanges_methods/src/core.rs. Timestamps are nanoseconds; a failed assertion or
-- `expect` is `none`.
pub mod Latest
use v_exchanges.Prelude.{
  ℕ, ℤ, Option, none, some, List, [], ◌∷◌, map, length, assert, not, is_empty, ◌>>◌, ◌>>=◌,
}
use v_exchanges.Core.Decimals.{Price}

pub record InnerTrade : Type 0 where
  pub time : ℤ
  pub price : ℤ
  pub qty : ℕ

pub record PrecisionPriceQty : Type 0 where
  pub price : ℕ
  pub qty : ℕ

pub record BatchTrades : Type 0 where
  pub prec : PrecisionPriceQty
  pub trades : List InnerTrade
  pub ts_event : ℤ
  pub ts_init : ℤ
  pub ts_last : ℤ

abbrev pub last : List InnerTrade → Option InnerTrade
last [] = none
last (t ∷ []) = some t
last (t ∷ u ∷ ts) = last (u ∷ ts)

unfoldable pub new : PrecisionPriceQty → List InnerTrade → ℤ → ℤ → Option BatchTrades
new prec trades ts_init ts_last =
    assert (not (is_empty trades))
    >> (last trades >>= λ t. some (record {
      prec = prec;
      trades = trades;
      ts_event = t.time;
      ts_init = ts_init;
      ts_last = ts_last;
    }))

unfoldable pub last_price : BatchTrades → Option Price
last_price b = last b.trades >>= λ t. some (record { raw = t.price; precision = b.prec.price })

abbrev pub iter : BatchTrades → List (ℤ × ℤ × ℕ)
iter b = map (λ t. (t.time, t.price, t.qty)) b.trades
