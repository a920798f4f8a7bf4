-- ===== src/Methods/Bybit/Book.antt =====
-- `BookConnection` of v_exchanges_methods/src/bybit/ws.rs. The connection and JSON are arguments.
pub mod Consecutive
use v_exchanges.Prelude.{
  ℕ, ℤ, ◌+◌, ◌%◌, Bool, true, false, not, ◌||◌, Option, none, some, List, [], ◌∷◌, ◌++◌, Text,
  codes, Map, Eq, insert, split, text_beq, map, u64_mod, Result, ok, err, ◌==◌, ◌>>=◌,
  if◌then◌else◌,
}
use v_exchanges.Ws.Messages.{ContentEvent, WsError}
use v_exchanges.Methods.Info.{Instrument, spot_market, perp_market}
use v_exchanges.Methods.Trades.{PrecisionPriceQty}
use v_exchanges.Methods.Streams
use v_exchanges.Methods.Streams.{BookShape, BookUpdate, Readers, parse_levels}

pub record BybitSeq : Type 0 where
  pub u : ℕ
  pub is_snapshot : Bool

unfoldable pub has_gap_from_prev : BybitSeq → BybitSeq → Bool
has_gap_from_prev self prev =
    if self.is_snapshot || prev.is_snapshot then false else not (self.u == (prev.u + 1) % u64_mod)

pub record BybitBookData : Type 0 where
  pub b : List (Text × Text)
  pub a : List (Text × Text)
  pub u : ℕ

pub record Parsers (Value Pair : Type 0) : Type 0 where
  pub book_data : Value → Option BybitBookData
  -- `fmt_bybit`
  pub name : Pair → Text

pub record BookConnection (Pair : Type 0) : Type 0 where
  pub pair_precisions : Map Pair PrecisionPriceQty
  pub last_seq : Map Pair BybitSeq

abbrev pub url_suffix : Instrument → Option Text
url_suffix perp_market = some (codes "/v5/public/linear")
url_suffix spot_market = some (codes "/v5/public/spot")
url_suffix _ = none

abbrev pub last_part : List Text → Text
last_part [] = []
last_part (t ∷ []) = t
last_part (_ ∷ t ∷ ts) = last_part (t ∷ ts)

abbrev pub is_snapshot_type : Text → Option Bool
is_snapshot_type event_type =
    if text_beq event_type (codes "snapshot")
    then some true
    else if text_beq event_type (codes "delta")
    then some false
    else none

abbrev pub gapped : Option BybitSeq → BybitSeq → Bool
gapped none seq = false
gapped (some prev) seq = has_gap_from_prev seq prev

abbrev pub update_of : BybitSeq → BookShape → Bool → BookUpdate
update_of seq shape gap =
    if seq.is_snapshot then Streams.snapshot shape else Streams.batch_delta shape gap

module _ {Value Pair : Type 0} (lib : Readers Pair) (parsers : Parsers Value Pair) where
  open lib use {parse_pair}
  open parsers use {book_data, name}

  -- `try_new`, with what makes a connection of a suffix and some topics.
  unfoldable pub try_new :
      {C : Type 0}
      → (Text → List Text → Result WsError C)
      → List Pair
      → Instrument
      → Map Pair PrecisionPriceQty
      → Option (Result WsError (C × BookConnection Pair))
  try_new connect pairs instrument precisions = url_suffix instrument >>= λ suffix.
      some (elim (connect suffix (map (λ p. codes "orderbook.1000." ++ name p) pairs)) [
        | err e ↦ err e
        | ok connection ↦
            ok (connection, record { pair_precisions = precisions; last_seq = λ _. none })
      ])

  -- The pair stands behind the last '.' of the topic.
  unfoldable pub read_event :
      Map Pair PrecisionPriceQty → ℤ → ContentEvent Value → Option (Pair × BybitSeq × BookShape)
  read_event precisions now event = book_data event.data_ >>= λ parsed.
      parse_pair (last_part (split 46 event.topic)) >>= λ pair. precisions pair >>= λ prec.
      is_snapshot_type event.event_type >>= λ is_snapshot. some (
        pair,
        record { u = parsed.u; is_snapshot = is_snapshot },
        record {
          ts_event = event.time;
          ts_init = now;
          ts_last = now;
          prec = prec;
          bids = parse_levels lib prec parsed.b;
          asks = parse_levels lib prec parsed.a;
        },
      )

  module _ ⦃e : Eq Pair⦄ where
    -- The update of one event, and those of `rest`, from the last tokens on.
    abbrev pub advance :
        Pair × BybitSeq × BookShape
        → (Map Pair BybitSeq → Option (List BookUpdate × Map Pair BybitSeq))
        → Map Pair BybitSeq
        → Option (List BookUpdate × Map Pair BybitSeq)
    advance (pair, seq, shape) rest last_seq = rest (insert pair seq last_seq) >>= λ (out, last).
        some (update_of seq shape (gapped (last_seq pair) seq) ∷ out, last)

    unfoldable pub updates :
        Map Pair PrecisionPriceQty
        → ℤ
        → List (ContentEvent Value)
        → Map Pair BybitSeq
        → Option (List BookUpdate × Map Pair BybitSeq)
    updates precisions now [] last_seq = some ([], last_seq)
    updates precisions now (event ∷ events) last_seq =
        read_event precisions now event >>= λ r. advance r (updates precisions now events) last_seq

    -- `next`, for what the connection answers.
    unfoldable pub next :
        Result WsError (List (ContentEvent Value))
        → ℤ
        → BookConnection Pair
        → Option (Result WsError (List BookUpdate) × BookConnection Pair)
    next (err x) now c = some (err x, c)
    next (ok batch) now c = updates c.pair_precisions now batch c.last_seq >>= λ (out, last).
        some (ok out, record c { last_seq = last })
