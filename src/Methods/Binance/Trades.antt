-- ===== src/Methods/Binance/Trades.antt =====
-- `TradesConnection` of v_exchanges_methods/src/binance/ws.rs: the trades of a batch of events, by
-- pair. The order of pairs is the library's; JSON is read by it.
pub mod Grouped
use v_exchanges.Prelude.{
  ℕ, ℤ, pos, Bool, Option, none, some, List, [], ◌∷◌, ◌++◌, Text, Map, Ord, Eq, ◌>>=◌, ◌||◌, ◌==◌,
  if◌then◌else◌,
}
use v_exchanges.Ws.Messages.{ContentEvent}
use v_exchanges.Methods.Info.{Instrument, spot_market, perp_market, margin_market}
use v_exchanges.Methods.Trades
use v_exchanges.Methods.Trades.{InnerTrade, PrecisionPriceQty, BatchTrades}
use v_exchanges.Methods.Streams.{Readers}

-- `TradeEventPerp` and `TradeEventSpot`, as far as they are read.
pub record TradeEvent : Type 0 where
  pub timestamp : ℤ
  pub qty_asset : Text
  pub price : Text
  pub pair : Text

pub record Parsers (Value : Type 0) : Type 0 where
  pub perp_event : Value → Option TradeEvent
  pub spot_event : Value → Option TradeEvent

-- What has been collected, in the order of pairs.
abbrev pub Groups : Type 0 → Type 0
Groups Pair = List (Pair × PrecisionPriceQty × List InnerTrade)

abbrev pub is_zero : ℤ → Bool
is_zero (pos n) = n == 0
is_zero _ = Bool.false

module _ {Pair : Type 0} ⦃e : Eq Pair⦄ ⦃o : Ord Pair⦄ where
  -- `entry(pair).or_insert((prec, Vec::new())).1.push(trade)`
  abbrev pub push_trade : Pair → PrecisionPriceQty → InnerTrade → Groups Pair → Groups Pair
  push_trade pair prec trade [] = (pair, prec, trade ∷ []) ∷ []
  push_trade pair prec trade ((p, q, ts) ∷ groups) =
      let rest = push_trade pair prec trade groups in
      if e.beq p pair
      then (p, q, ts ++ trade ∷ []) ∷ groups
      else if o.le pair p
      then (pair, prec, trade ∷ []) ∷ (p, q, ts) ∷ groups
      else (p, q, ts) ∷ rest

  -- The trades of a batch, each with its pair and the pair's precision.
  abbrev pub grouped : List (Pair × PrecisionPriceQty × InnerTrade) → Groups Pair → Groups Pair
  grouped [] groups = groups
  grouped ((pair, prec, trade) ∷ trades) groups = grouped trades (push_trade pair prec trade groups)

  abbrev pub batches : ℤ → Groups Pair → Option (List BatchTrades)
  batches now [] = some []
  batches now ((_, prec, trades) ∷ groups) =
      Trades.new prec trades now now >>= λ b. batches now groups >>= λ bs. some (b ∷ bs)

module _ {Pair Value : Type 0} ⦃e : Eq Pair⦄ ⦃o : Ord Pair⦄ (lib : Readers Pair)
    (parsers : Parsers Value) where
  open lib use {parse_pair, parse_price, parse_qty, from_millisecond}

  abbrev pub parse_event : Instrument → Value → Option TradeEvent
  parse_event perp_market v = parsers.perp_event v
  parse_event spot_market v = parsers.spot_event v
  parse_event margin_market v = parsers.spot_event v
  parse_event _ v = none

  -- What an event adds to the batch; a trade of no price or no quantity is skipped.
  unfoldable pub read_trade :
      Instrument
      → Map Pair PrecisionPriceQty
      → Value
      → Option (Option (Pair × PrecisionPriceQty × InnerTrade))
  read_trade instrument precisions v = parse_event instrument v >>= λ parsed.
      parse_pair parsed.pair >>= λ pair. precisions pair >>= λ prec.
      (let price = parse_price prec parsed.price in
        let qty = parse_qty prec parsed.qty_asset in
        if is_zero price || qty == 0
        then some none
        else (from_millisecond parsed.timestamp >>= λ time.
            some (some (pair, prec, record { time = time; price = price; qty = qty }))))

  abbrev pub kept : {A : Type 0} → Option A → List A → List A
  kept none rest = rest
  kept (some a) rest = a ∷ rest

  abbrev pub read_trades :
      Instrument
      → Map Pair PrecisionPriceQty
      → List (ContentEvent Value)
      → Option (List (Pair × PrecisionPriceQty × InnerTrade))
  read_trades instrument precisions [] = some []
  read_trades instrument precisions (event ∷ events) =
      read_trade instrument precisions event.data_ >>= λ t.
      read_trades instrument precisions events >>= λ ts. some (kept t ts)

  -- `next` on a batch of the connection's events.
  unfoldable pub next :
      Instrument
      → Map Pair PrecisionPriceQty
      → ℤ
      → List (ContentEvent Value)
      → Option (List BatchTrades)
  next instrument precisions now events =
      read_trades instrument precisions events >>= λ trades. batches now (grouped trades [])
