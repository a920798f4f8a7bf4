-- ===== src/Methods/Binance/Book.antt =====
-- `BookConnection` of v_exchanges_methods/src/binance/ws.rs, with `fetch_book_snapshot` of
-- binance/market.rs: the rotation of snapshots over the pairs, and the updates of a batch of events.
-- The connection, the requests and the clocks are arguments.
pub mod Rotation
pub mod Flagged
pub mod Covered
use v_exchanges.Prelude.{
  ℕ, ℤ, ◌+◌, ◌/◌, ◌%◌, ◌^◌, Bool, true, false, not, Option, none, some, List, [], ◌∷◌, ◌++◌, Text,
  codes, Map, Eq, insert, map, length, get_elem?, split, text_beq, assert, is_empty, ltb, Result,
  ok, err, ◌>>=◌, ◌>>◌, ◌==◌, if◌then◌else◌,
}
use v_exchanges.Ws.Messages
use v_exchanges.Ws.Messages.{ContentEvent, WsError}
use v_exchanges.Adapters.Binance.Urls.{BinanceWsUrl, ws_spot, ws_futures_usd_m}
use v_exchanges.Methods.Info.{Instrument, spot_market, perp_market, margin_market}
use v_exchanges.Methods.Trades.{PrecisionPriceQty}
use v_exchanges.Methods.Depth.{BinanceDepthSeq, DepthEvent, seq_of, gapped}
use v_exchanges.Methods.Streams
use v_exchanges.Methods.Streams.{BookShape, BookUpdate, Readers, parse_levels}

-- A `DepthEvent` with its ids; the ids stand in a record of their own.
pub record DepthData : Type 0 where
  pub ids : DepthEvent
  pub transaction_time : Option ℤ
  pub bids : List (Text × Text)
  pub asks : List (Text × Text)

pub record Parsers (Value Pair : Type 0) : Type 0 where
  pub depth_event : Value → Option DepthData
  pub to_uppercase : Text → Text
  -- `fmt_binance().to_lowercase()`
  pub lower_name : Pair → Text

-- The snapshot that is awaited: never, or that of a pair from a time on.
pub data Pending (Pair : Type 0) : Type 0 where
  never : Pending Pair
  fetching : Pair → ℕ → Pending Pair

pub record BookConnection (Pair : Type 0) : Type 0 where
  pub pair_precisions : Map Pair PrecisionPriceQty
  pub instrument : Instrument
  pub pairs : List Pair
  pub next_pair_idx : ℕ
  pub per_pair_interval : Option ℕ
  pub pending_snapshot_fut : Pending Pair
  pub last_seq : Map Pair BinanceDepthSeq

-- What is ready first; of both, the snapshot.
pub data Branch (Value : Type 0) : Type 0 where
  snapshot_ready : Result Text BookShape → Branch Value
  delta : Result WsError (List (ContentEvent Value)) → Branch Value

abbrev pub ws_url : Instrument → Option BinanceWsUrl
ws_url perp_market = some ws_futures_usd_m
ws_url spot_market = some ws_spot
ws_url margin_market = some ws_spot
ws_url _ = none

-- `f / pairs.len() as u32`, which panics on no pairs.
abbrev pub divided : Option ℕ → ℕ → Option (Option ℕ)
divided none n = some none
divided (some f) n = if n % 2 ^ 32 == 0 then none else some (some (f / (n % 2 ^ 32)))

module _ {Pair : Type 0} where
  abbrev pub first_pending :
      Map Pair PrecisionPriceQty → Option ℕ → List Pair → ℕ → Option (Pending Pair)
  first_pending precisions (some _) (pair ∷ _) now =
      precisions pair >>= λ _. some (fetching pair now)
  first_pending precisions _ _ now = some never

  -- The state behind `try_new`, once the connection has been made.
  unfoldable pub opened :
      List Pair
      → Instrument
      → Map Pair PrecisionPriceQty
      → Option ℕ
      → ℕ
      → Option (BookConnection Pair)
  opened pairs instrument precisions freq now = divided freq (length pairs) >>= λ interval.
      first_pending precisions interval pairs now >>= λ pending. some (record {
        pair_precisions = precisions;
        instrument = instrument;
        pairs = pairs;
        next_pair_idx = if ltb 1 (length pairs) then 1 else 0;
        per_pair_interval = interval;
        pending_snapshot_fut = pending;
        last_seq = λ _. none;
      })

  unfoldable pub build_next_snapshot_fut :
      ℕ → BookConnection Pair → Option (Pending Pair × BookConnection Pair)
  build_next_snapshot_fut now c = elim c.per_pair_interval [
    | none ↦ some (never, c)
    | some interval ↦ get_elem? c.pairs c.next_pair_idx >>= λ pair. c.pair_precisions pair >>= λ _.
        some (
          fetching pair (now + interval),
          record c { next_pair_idx = (c.next_pair_idx + 1) % length c.pairs },
        )
  ]

abbrev pub snapshot_answer : Result Text BookShape → Result WsError (List BookUpdate)
snapshot_answer (err e) = err (Messages.other e)
snapshot_answer (ok shape) = ok (Streams.snapshot shape ∷ [])

module _ {Value Pair : Type 0} (lib : Readers Pair) (parsers : Parsers Value Pair) where
  open lib use {parse_pair, from_millisecond}
  open parsers use {depth_event, to_uppercase, lower_name}

  abbrev pub topic : Pair → Text
  topic p = lower_name p ++ codes "@depth@100ms"

  -- `try_new`, with what makes a connection.
  unfoldable pub try_new :
      {C : Type 0}
      → (BinanceWsUrl → List Text → Result WsError C)
      → List Pair
      → Instrument
      → Map Pair PrecisionPriceQty
      → Option ℕ
      → ℕ
      → Option (Result WsError (C × BookConnection Pair))
  try_new connect pairs instrument precisions freq now =
      assert (not (is_empty pairs))
      >> (ws_url instrument >>= λ url. elim (connect url (map topic pairs)) [
        | err e ↦ some (err e)
        | ok connection ↦
            opened pairs instrument precisions freq now >>= λ c. some (ok (connection, c))
      ])

  -- `fetch_book_snapshot`, from the levels of the response.
  abbrev pub snapshot_of :
      PrecisionPriceQty → ℤ → List (Text × Text) → List (Text × Text) → BookShape
  snapshot_of prec now bids asks = record {
    ts_event = now;
    ts_init = now;
    ts_last = now;
    prec = prec;
    bids = parse_levels lib prec bids;
    asks = parse_levels lib prec asks;
  }

  abbrev pub event_time : Option ℤ → ℤ → Option ℤ
  event_time none time = some time
  event_time (some ts) time = from_millisecond ts

  -- Before the first '@', in upper case.
  abbrev pub head : List Text → Text
  head [] = []
  head (t ∷ _) = t

  abbrev pub pair_of : Text → Option Pair
  pair_of topic = parse_pair (to_uppercase (head (split 64 topic)))

  -- What a depth event says: its pair, its ids, and its levels.
  unfoldable pub read_event :
      Map Pair PrecisionPriceQty → ℤ → ContentEvent Value → Option (Pair × DepthEvent × BookShape)
  read_event precisions now event = depth_event event.data_ >>= λ parsed.
      event_time parsed.transaction_time event.time >>= λ ts_event. pair_of event.topic >>= λ pair.
      precisions pair >>= λ prec.
      assert (text_beq event.event_type (codes "depthUpdate"))
      >> some (
        pair,
        parsed.ids,
        record {
          ts_event = ts_event;
          ts_init = now;
          ts_last = now;
          prec = prec;
          bids = parse_levels lib prec parsed.bids;
          asks = parse_levels lib prec parsed.asks;
        },
      )

  module _ ⦃e : Eq Pair⦄ where
    -- The update of one event, and those of `rest`, from the last tokens on.
    abbrev pub advance :
        Instrument
        → Pair × DepthEvent × BookShape
        → (Map Pair BinanceDepthSeq → Option (List BookUpdate × Map Pair BinanceDepthSeq))
        → Map Pair BinanceDepthSeq
        → Option (List BookUpdate × Map Pair BinanceDepthSeq)
    advance instrument (pair, ids, shape) rest last_seq = seq_of instrument ids >>= λ seq.
        gapped (last_seq pair) seq >>= λ gap. rest (insert pair seq last_seq) >>= λ (out, last).
        some (Streams.batch_delta shape gap ∷ out, last)

    -- The updates of a batch, and the last tokens behind it.
    unfoldable pub updates :
        Instrument
        → Map Pair PrecisionPriceQty
        → ℤ
        → List (ContentEvent Value)
        → Map Pair BinanceDepthSeq
        → Option (List BookUpdate × Map Pair BinanceDepthSeq)
    updates instrument precisions now [] last_seq = some ([], last_seq)
    updates instrument precisions now (event ∷ events) last_seq =
        read_event precisions now event >>= λ r.
        advance instrument r (updates instrument precisions now events) last_seq

    -- `next`, once a branch is ready.
    unfoldable pub next :
        Branch Value
        → ℕ
        → ℤ
        → BookConnection Pair
        → Option (Result WsError (List BookUpdate) × BookConnection Pair)
    next (snapshot_ready r) instant now c = build_next_snapshot_fut instant c >>= λ (pending, c').
        some (snapshot_answer r, record c' { pending_snapshot_fut = pending })
    next (delta (err e)) instant now c = some (err e, c)
    next (delta (ok batch)) instant now c =
        updates c.instrument c.pair_precisions now batch c.last_seq >>= λ (out, last).
        some (ok out, record c { last_seq = last })
