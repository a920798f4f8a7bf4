-- ===== src/Methods/Binance/Book/Flagged.antt =====
-- The updates of a batch are flagged as `Coverage.deltas` flags the ids of its events.
use v_exchanges.Prelude.{
  ℤ, ◌≡◌, refl, sym, Bool, Option, none, some, List, [], ◌∷◌, Map, Eq, map, insert, arith,
  Option-cases, inl, inr, ◌>>=◌,
}
use v_exchanges.Ws.Messages.{ContentEvent}
use v_exchanges.Methods.Info.{Instrument}
use v_exchanges.Methods.Trades.{PrecisionPriceQty}
use v_exchanges.Methods.Depth.{BinanceDepthSeq, DepthEvent, seq_of, gapped}
use v_exchanges.Methods.Depth.Coverage.{deltas}
use v_exchanges.Methods.Streams
use v_exchanges.Methods.Streams.{BookShape, BookUpdate, Readers}
use v_exchanges.Methods.Binance.Book.{Parsers, read_event, advance, updates}

module _ {Value Pair : Type 0} ⦃e : Eq Pair⦄ (lib : Readers Pair) (parsers : Parsers Value Pair)
    (instrument : Instrument) (precisions : Map Pair PrecisionPriceQty) (now : ℤ) where
  -- What the events of a batch say, unless one of them is no depth event of a listed pair.
  abbrev pub read_all : List (ContentEvent Value) → Option (List (Pair × DepthEvent × BookShape))
  read_all [] = some []
  read_all (event ∷ events) =
      read_event lib parsers precisions now event >>= λ r. read_all events >>= λ rs. some (r ∷ rs)

  abbrev pub ids_of : Pair × DepthEvent × BookShape → Pair × DepthEvent
  ids_of (pair, ids, shape) = (pair, ids)

  abbrev pub shape_of : Pair × DepthEvent × BookShape → BookShape
  shape_of (pair, ids, shape) = shape

  -- The updates of some shapes with some flags.
  abbrev pub flagged : List (Pair × DepthEvent × BookShape) → List (Pair × Bool) → List BookUpdate
  flagged ((_, _, shape) ∷ read) ((_, gap) ∷ flags) =
      Streams.batch_delta shape gap ∷ flagged read flags
  flagged _ _ = []

  -- What the ids of a batch give, as updates.
  abbrev pub with_shapes :
      List (Pair × DepthEvent × BookShape)
      → Option (List (Pair × Bool) × Map Pair BinanceDepthSeq)
      → Option (List BookUpdate × Map Pair BinanceDepthSeq)
  with_shapes read none = none
  with_shapes read (some (flags, last)) = some (flagged read flags, last)

  advance-with_shapes :
      (r : Pair × DepthEvent × BookShape) (rs : List (Pair × DepthEvent × BookShape))
      (rest : Map Pair BinanceDepthSeq → Option (List BookUpdate × Map Pair BinanceDepthSeq))
      (last_seq : Map Pair BinanceDepthSeq)
      → ((m : Map Pair BinanceDepthSeq)
          → rest m ≡ with_shapes rs (deltas instrument (map ids_of rs) m))
      → advance lib parsers instrument r rest last_seq
        ≡ with_shapes (r ∷ rs) (deltas instrument (map ids_of (r ∷ rs)) last_seq)
  unfolding deltas
  advance-with_shapes (pair, ids, shape) rs rest last_seq same =
      elim (Option-cases (seq_of instrument ids)) [
        | inl f ↦ rw f refl
        | inr (seq, f) ↦ elim (Option-cases (gapped (last_seq pair) seq)) [
          | inl g ↦ rw f (rw g refl)
          | inr (gap, g) ↦
              elim (Option-cases (deltas instrument (map ids_of rs) (insert pair seq last_seq))) [
                | inl d ↦ rw f (rw g (rw (same (insert pair seq last_seq)) (rw d refl)))
                | inr (out, d) ↦ rw f (rw g (rw (same (insert pair seq last_seq)) (rw d refl)))
              ]
        ]
      ]

  -- When the events of a batch are read, it becomes the shapes that they say, each with the flag
  -- that the ids of the batch have; and it panics exactly where these do.
  pub updates-deltas :
      (events : List (ContentEvent Value)) (read : List (Pair × DepthEvent × BookShape))
      (last_seq : Map Pair BinanceDepthSeq)
      → read_all events ≡ some read
      → updates lib parsers instrument precisions now events last_seq
        ≡ with_shapes read (deltas instrument (map ids_of read) last_seq)
  unfolding updates
  updates-deltas [] read last_seq h =
      let same : [] ≡ read = ground arith in rw (sym same) (unfold deltas in refl)
  updates-deltas (event ∷ events) read last_seq h =
      elim (Option-cases (read_event lib parsers precisions now event)) [
        | inl f ↦ absurd (ground arith)
        | inr (r, f) ↦ elim (Option-cases (read_all events)) [
          | inl g ↦ absurd (ground arith)
          | inr (rs, g) ↦
              (let same : r ∷ rs ≡ read = ground arith in
                rw (sym same) (
                  rw f (
                    advance-with_shapes r rs (updates lib parsers instrument precisions now events)
                      last_seq (λ m. updates-deltas events rs m g))))
        ]
      ]
