-- ===== src/Methods/Candles.antt =====
-- The candles of the interface, and `OpenInterest` of v_exchanges_methods/src/core.rs, over any times
-- and numbers.
use v_exchanges.Prelude.{ℕ, Option}

pub record Kline (Time Float : Type 0) : Type 0 where
  pub open_time : Time
  pub open_ : Float
  pub high : Float
  pub low : Float
  pub close : Float
  pub volume_quote : Float
  pub trades : Option ℕ
  pub taker_buy_volume_quote : Option Float

pub record OpenInterest (Time Float : Type 0) : Type 0 where
  pub val_asset : Float
  pub val_quote : Option Float
  pub marketcap : Option Float
  pub timestamp : Time
