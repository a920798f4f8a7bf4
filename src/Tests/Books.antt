-- ===== src/Tests/Books.antt =====
-- The theorems on the streams of trades and of order books.
use v_exchanges.Prelude.{
  ℤ, Result, is_none, ℕ, pos, ◌+◌, ◌≡◌, refl, true, false, none, some, List, [], ◌∷◌, Text, codes,
  Map, get_elem?, length, ◌%◌, map, text_beq, insert, arith, nat_eq, Ord, leb, ◌==◌, if◌then◌else◌,
}
use v_exchanges.Ws.Messages.{ContentEvent}
use v_exchanges.Methods.Info.{spot_market, perp_market}
use v_exchanges.Methods.Trades.{PrecisionPriceQty, InnerTrade, BatchTrades}
use v_exchanges.Methods.Streams.{BookShape, Readers, batch_delta}
use v_exchanges.Methods.Depth.{DepthEvent, BinanceSpotSeq, BinanceDepthSeq, spot, seq_of, gapped}
use v_exchanges.Methods.Depth.Coverage.{IsOrdered, IsCovered, token}
use v_exchanges.Methods.Binance.Trades as BinanceTrades
use v_exchanges.Methods.Binance.Trades.{TradeEvent, Groups}
use v_exchanges.Methods.Binance.Trades.Grouped.{trades_in, ascending, find, trades_of, next-grouped}
use v_exchanges.Methods.Binance.Book as BinanceBook
use v_exchanges.Methods.Binance.Book.{BookConnection, DepthData, fetching, opened}
use v_exchanges.Methods.Binance.Book.Rotation.{Ready, behind_calls, snapshots_in, snapshots_rotate}
use v_exchanges.Methods.Binance.Book.Covered.{updates-covers}
use v_exchanges.Methods.Bybit.Book as BybitBook
use v_exchanges.Methods.Bybit.Book.{BybitBookData, BybitSeq, update_of}
use v_exchanges.Methods.Bybit.Book.Consecutive.{u_of, count_from, unflagged-consecutive}

instance abbrev number_ord : Ord ℕ
number_ord = record {
  le = leb;
  total = λ a b. ground arith;
  trans = λ a b c h g. ground arith;
  antisymm = λ a b h g. ground arith;
}

-- Pairs are numbers; a price is the length of its text.
abbrev lib : Readers ℕ
lib = record {
  parse_pair = λ t. some (if text_beq t (codes "BTC") then 7 else 8);
  parse_price = λ _ t. pos (length t);
  parse_qty = λ _ t. length t;
  from_millisecond = λ ms. some ms;
}

abbrev prec : PrecisionPriceQty
prec = record { price = 2; qty = 3 }

abbrev precisions : Map ℕ PrecisionPriceQty
precisions _ = some prec

abbrev event : Text → Text → ℕ → ContentEvent ℕ
event event_type topic n = record {
  data_ = n;
  topic = topic;
  time = pos 5;
  event_type = event_type;
}

-- Trades of one pair and of another, in turn; those of quantity zero have no text.
abbrev trade_parsers : BinanceTrades.Parsers ℕ
trade_parsers = record {
  perp_event = λ _. none;
  spot_event = λ n. some (record {
    timestamp = pos n;
    qty_asset = if n % 3 == 0 then [] else codes "1";
    price = codes "10";
    pair = if n % 2 == 0 then codes "BTC" else codes "ETH";
  });
}

abbrev trade_events : List (ContentEvent ℕ)
trade_events = map (event (codes "trade") (codes "btc@trade")) (1 ∷ 2 ∷ 3 ∷ 4 ∷ 5 ∷ [])

abbrev trade : ℕ → ℕ → ℕ × PrecisionPriceQty × InnerTrade
trade pair n = (pair, prec, record { time = pos n; price = pos 2; qty = 1 })

abbrev trades : List (ℕ × PrecisionPriceQty × InnerTrade)
trades = trade 8 1 ∷ trade 7 2 ∷ trade 7 4 ∷ trade 8 5 ∷ []

next-grouped_example :
    (groups : Groups ℕ) × (bs : List BatchTrades) × (BinanceTrades.next lib trade_parsers
        spot_market precisions
        (pos 9)
        trade_events
      ≡ some bs)
    × (map (λ b. b.trades) bs ≡ map trades_in groups)
    × (ascending groups ≡ true)
    × ((p : ℕ) → find p groups ≡ trades_of p trades)
unfolding BinanceTrades.read_trade
next-grouped_example =
    next-grouped lib trade_parsers spot_market precisions (pos 9) trade_events trades refl

abbrev depth_parsers : BinanceBook.Parsers ℕ ℕ
depth_parsers = record {
  depth_event = λ n. some (record {
    ids = record { first_update_id = n; final_update_id = n + 1; previous_final_update_id = none };
    transaction_time = none;
    bids = (codes "10", codes "1") ∷ [];
    asks = [];
  });
  to_uppercase = λ t. t;
  lower_name = λ _. codes "btc";
}

abbrev shape : BookShape
shape = record {
  ts_event = pos 5;
  ts_init = pos 9;
  ts_last = pos 9;
  prec = prec;
  bids = (pos 2, 1) ∷ [];
  asks = [];
}

-- Three pairs.
snapshots_rotate_example :
    (c : BookConnection ℕ) × (opened (4 ∷ 5 ∷ 6 ∷ []) perp_market precisions (some 60) 100 ≡ some c)
    × ((calls : List (Ready lib depth_parsers)) (c' : BookConnection ℕ)
        → behind_calls lib depth_parsers calls c ≡ some c'
        → ((q : ℕ) × (deadline : ℕ) × (c'.pending_snapshot_fut ≡ fetching q deadline)
            × (get_elem? (4 ∷ 5 ∷ 6 ∷ []) (snapshots_in lib depth_parsers calls % 3) ≡ some q))
          × ((r : Result Text BookShape) (instant : ℕ) (time : ℤ)
              → is_none (
                  BinanceBook.next lib depth_parsers (BinanceBook.snapshot_ready r) instant time c')
                ≡ false))
snapshots_rotate_example =
    snapshots_rotate lib depth_parsers precisions 4 (5 ∷ 6 ∷ []) perp_market 60 100 (ground arith)
      refl

abbrev ids : ℕ → DepthEvent
ids n = record { first_update_id = n; final_update_id = n + 1; previous_final_update_id = none }

abbrev last_token : BinanceSpotSeq
last_token = record { u_first = 1; u_final = 2 }

abbrev seen : Map ℕ BinanceDepthSeq
seen = insert 7 (spot last_token) (λ _. none)

abbrev two_ids : List DepthEvent
two_ids = ids 3 ∷ ids 5 ∷ []

two_ids-IsOrdered : IsOrdered last_token two_ids
two_ids-IsOrdered = (ground arith, ground arith, (ground arith, ground arith, tt))

updates-covers_example : IsCovered 5 (map token two_ids)
unfolding BinanceBook.updates BinanceBook.read_event seq_of gapped
updates-covers_example =
    updates-covers lib depth_parsers precisions (pos 9) 7
      (map (event (codes "depthUpdate") (codes "BTC@depth@100ms")) (3 ∷ 5 ∷ []))
      ((7, ids 3, shape) ∷ (7, ids 5, shape) ∷ []) two_ids last_token seen
      (insert 7 (spot (token (ids 5))) (insert 7 (spot (token (ids 3))) seen))
      (batch_delta shape false ∷ batch_delta shape false ∷ []) 5 refl refl refl two_ids-IsOrdered
      refl refl (ground arith) (ground arith)

abbrev bybit_parsers : BybitBook.Parsers ℕ ℕ
bybit_parsers = record {
  book_data = λ n. some (record { b = (codes "10", codes "1") ∷ []; a = []; u = n });
  name = λ _. codes "BTC";
}

abbrev seq : ℕ → BybitSeq
seq n = record { u = n; is_snapshot = false }

abbrev bybit_events : List (ContentEvent ℕ)
bybit_events = map (event (codes "delta") (codes "orderbook.1000.BTC")) (41 ∷ 42 ∷ [])

abbrev bybit_read : List (ℕ × BybitSeq × BookShape)
bybit_read = (7, seq 41, shape) ∷ (7, seq 42, shape) ∷ []

abbrev before_batch : Map ℕ BybitSeq
before_batch = insert 7 (seq 40) (λ _. none)

unflagged-consecutive_example :
    map (u_of lib bybit_parsers precisions (pos 9)) bybit_read ≡ count_from 41 (41 ∷ 42 ∷ [])
unfolding BybitBook.updates BybitBook.read_event BybitBook.has_gap_from_prev
unflagged-consecutive_example =
    unflagged-consecutive lib bybit_parsers precisions (pos 9) 7 bybit_events bybit_read (seq 40)
      before_batch (insert 7 (seq 42) (insert 7 (seq 41) before_batch))
      (update_of (seq 41) shape false ∷ update_of (seq 42) shape false ∷ []) refl refl refl refl
      refl refl refl
