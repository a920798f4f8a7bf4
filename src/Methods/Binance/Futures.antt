-- ===== src/Methods/Binance/Futures.antt =====
-- The listing of Binance's futures: v_exchanges_methods/src/binance/perp/general.rs. Pairs and
-- timestamps are the libraries'; a failed `unwrap` or `expect` is a panic, `none`.
pub mod Preferred
use v_exchanges.Prelude.{
  ℕ, ℤ, pos, Bool, true, false, not, ◌&&◌, ◌%◌, ◌^◌, Option, none, some, List, [], ◌∷◌, Text, codes,
  text_beq, Eq, Map, insert, is_none, ◌>>=◌, ◌==◌, if◌then◌else◌,
}
use v_exchanges.Methods.Info.{PairInfo, ExchangeInfo}

-- `PERPETUAL_DELIVERY_DATE`
abbrev pub perpetual_delivery_date : ℕ
perpetual_delivery_date = 4_133_404_800_000

-- `FuturesSymbol`, as far as it is read.
pub record FuturesSymbol : Type 0 where
  pub delivery_date : ℤ
  pub status : Text
  pub base_asset : Text
  pub quote_asset : Text
  pub price_precision : ℕ
  pub quantity_precision : ℕ

-- `BinanceExchangeFutures`, as far as it is read.
pub record BinanceExchangeFutures : Type 0 where
  pub server_time : ℤ
  pub symbols : List FuturesSymbol

pub record Libraries (Pair : Type 0) : Type 0 where
  -- `Pair::new` of a base and a quote.
  pub pair : Text → Text → Pair
  pub from_millisecond : ℤ → Option ℤ

abbrev pub is_perpetual_date : ℤ → Bool
is_perpetual_date (pos ms) = ms == perpetual_delivery_date
is_perpetual_date _ = false

module _ {Pair : Type 0} ⦃e : Eq Pair⦄ where
  -- A perpetual takes the place of a contract with a delivery, and nothing else is replaced.
  abbrev pub enter : Pair → PairInfo → Map Pair PairInfo → Map Pair PairInfo
  enter p info pairs = elim (pairs p) [
    | none ↦ insert p info pairs
    | some old ↦
        if not (is_none old.delivery_date) && is_none info.delivery_date
        then insert p info pairs
        else pairs
  ]

module _ {Pair : Type 0} (lib : Libraries Pair) where
  open lib use {pair, from_millisecond}

  abbrev pub delivery : ℤ → Option (Option ℤ)
  delivery ms =
      if is_perpetual_date ms then some none else (from_millisecond ms >>= λ t. some (some t))

  -- `From<FuturesSymbol> for PairInfo`
  unfoldable pub info_of : FuturesSymbol → Option PairInfo
  info_of s = delivery s.delivery_date >>= λ date. some (record {
    price_precision = s.price_precision;
    qty_precision = s.quantity_precision % 2 ^ 8;
    delivery_date = date;
  })

  module _ ⦃e : Eq Pair⦄ where
    abbrev pub list_symbol : FuturesSymbol → Map Pair PairInfo → Option (Map Pair PairInfo)
    list_symbol s pairs =
        if not (text_beq s.status (codes "TRADING"))
        then some pairs
        else (info_of s >>= λ info. some (enter (pair s.base_asset s.quote_asset) info pairs))

    abbrev pub listed : List FuturesSymbol → Map Pair PairInfo → Option (Map Pair PairInfo)
    listed [] pairs = some pairs
    listed (s ∷ symbols) pairs = list_symbol s pairs >>= λ pairs'. listed symbols pairs'

    -- `From<BinanceExchangeFutures> for ExchangeInfo`
    unfoldable pub exchange_info : BinanceExchangeFutures → Option (ExchangeInfo Pair)
    exchange_info v = from_millisecond v.server_time >>= λ time.
        listed v.symbols (λ _. none) >>= λ pairs.
        some (record { server_time = time; pairs = pairs })
