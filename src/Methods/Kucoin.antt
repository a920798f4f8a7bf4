-- ===== src/Methods/Kucoin.antt =====
-- The market data of v_exchanges_methods/src/kucoin/market.rs: how the answers of KuCoin become the
-- prices and the pairs of the interface. Pairs, and what is computed of `f64`, are the libraries'.
pub mod Pairs
pub mod Klines
use v_exchanges.Prelude.{
  ℕ, Bool, true, false, Option, none, some, List, [], ◌∷◌, Text, codes, text_beq, Eq, Map, insert,
  if◌then◌else◌, ◌==◌, ◌>>=◌,
}
use v_exchanges.Methods.Info.{PairInfo}
use v_exchanges.Methods.Tables.{collect, wanted, offered, split_once}

-- "KuCoin futures uses XBT instead of BTC".
abbrev pub to_kucoin_futures_base : Text → Text
to_kucoin_futures_base base = if text_beq base (codes "BTC") then codes "XBT" else base

abbrev pub from_kucoin_futures_base : Text → Text
from_kucoin_futures_base base = if text_beq base (codes "XBT") then codes "BTC" else base

-- `ends_with` of a character.
abbrev pub ends_with : ℕ → Text → Bool
ends_with c [] = false
ends_with c (d ∷ []) = d == c
ends_with c (_ ∷ d ∷ s) = ends_with c (d ∷ s)

-- The parts of the answers, as far as they are read.
pub record ContractInfo (Float : Type 0) : Type 0 where
  pub symbol : Text
  pub base_currency : Text
  pub quote_currency : Text
  pub status : Text
  pub tick_size : Float
  pub lot_size : Float
  pub last_trade_price : Float

pub record TickerInfo (Float : Type 0) : Type 0 where
  pub symbol : Text
  pub last : Float

pub record KucoinSymbol (Float : Type 0) : Type 0 where
  pub symbol : Text
  pub base_increment : Float
  pub price_increment : Float
  pub enable_trading : Bool

pub record Libraries (Float Pair : Type 0) : Type 0 where
  -- `Pair::new` of a base and a quote.
  pub pair : Text → Text → Pair
  pub is_zero : Float → Bool
  pub log10 : Float → Float
  pub negated : Float → Float
  pub max_zero : Float → Float
  -- `round() as u8`.
  pub round_u8 : Float → ℕ

module _ {Float Pair : Type 0} ⦃e : Eq Pair⦄ (lib : Libraries Float Pair) where
  open lib use {pair, is_zero, log10, negated, max_zero, round_u8}

  abbrev pub step_precision : Float → ℕ
  step_precision step = if is_zero step then 0 else round_u8 (max_zero (negated (log10 step)))

  abbrev pub futures_pair : ContractInfo Float → Pair
  futures_pair c = pair (from_kucoin_futures_base c.base_currency) c.quote_currency

  -- `M` is 77 and `-` is 45.
  abbrev pub futures_price : Option (List Pair) → ContractInfo Float → Option (Pair × Float)
  futures_price pairs c =
      if ends_with 77 c.symbol then offered pairs (futures_pair c) c.last_trade_price else none

  -- `futures::prices` of the contracts of a response.
  unfoldable pub futures_prices : Option (List Pair) → List (ContractInfo Float) → Map Pair Float
  futures_prices pairs contracts = collect (futures_price pairs) contracts (λ _. none)

  abbrev pub futures_info : ContractInfo Float → Option (Pair × PairInfo)
  futures_info c =
      if text_beq c.status (codes "Open")
      then some (
        futures_pair c,
        record {
          price_precision = step_precision c.tick_size;
          qty_precision = step_precision c.lot_size;
          delivery_date = none;
        },
      )
      else none

  -- The pairs of `futures::exchange_info`.
  unfoldable pub futures_pairs : List (ContractInfo Float) → Map Pair PairInfo
  futures_pairs contracts = collect futures_info contracts (λ _. none)

  abbrev pub spot_pair : Text → Option Pair
  spot_pair symbol = split_once 45 symbol >>= λ parts. some (pair parts.0 parts.1)

  abbrev pub spot_price : Option (List Pair) → TickerInfo Float → Option (Pair × Float)
  spot_price pairs t = spot_pair t.symbol >>= λ p. offered pairs p t.last

  -- `prices` of the tickers of a response.
  unfoldable pub prices : Option (List Pair) → List (TickerInfo Float) → Map Pair Float
  prices pairs tickers = collect (spot_price pairs) tickers (λ _. none)

  abbrev pub spot_info : KucoinSymbol Float → Option (Pair × PairInfo)
  spot_info s =
      if s.enable_trading
      then (spot_pair s.symbol >>= λ p. some (
        p,
        record {
          price_precision = step_precision s.price_increment;
          qty_precision = step_precision s.base_increment;
          delivery_date = none;
        },
      ))
      else none

  -- The pairs of `exchange_info`.
  unfoldable pub pairs_of : List (KucoinSymbol Float) → Map Pair PairInfo
  pairs_of symbols = collect spot_info symbols (λ _. none)
