-- ===== src/Methods/Binance/Book/Covered.antt =====
-- What a batch of book updates without a gap covers.
use v_exchanges.Prelude.{
  ℕ, ℤ, ◌≤◌, ◌<◌, ◌≡◌, ◌∙◌, refl, Bool, true, false, not, ◌&&◌, some, List, [], ◌∷◌, Map, Eq, map,
  arith,
}
use mathlib.Core.Path.{subst}
use v_exchanges.Ws.Messages.{ContentEvent}
use v_exchanges.Methods.Info.{spot_market}
use v_exchanges.Methods.Trades.{PrecisionPriceQty}
use v_exchanges.Methods.Depth.{BinanceSpotSeq, BinanceDepthSeq, DepthEvent, spot}
use v_exchanges.Methods.Depth.Coverage.{
  IsOrdered, IsCovered, last_final, token, batch, flags, all_clear, deltas-flags, deltas-covers,
}
use v_exchanges.Methods.Streams
use v_exchanges.Methods.Streams.{BookShape, BookUpdate, Readers}
use v_exchanges.Methods.Binance.Book.{Parsers, updates}
use v_exchanges.Methods.Binance.Book.Flagged.{read_all, ids_of, flagged, updates-deltas}

-- Every update is a delta without a gap.
abbrev pub none_gapped : List BookUpdate → Bool
none_gapped [] = true
none_gapped (Streams.snapshot _ ∷ out) = false
none_gapped (Streams.batch_delta _ gap ∷ out) = not gap && none_gapped out

module _ {Value Pair : Type 0} ⦃e : Eq Pair⦄ (lib : Readers Pair) (parsers : Parsers Value Pair)
    (precisions : Map Pair PrecisionPriceQty) (now : ℤ) where
  clear-flagged :
      (pair : Pair) (read : List (Pair × DepthEvent × BookShape)) (ids : List DepthEvent)
      (prev : BinanceSpotSeq)
      → map (ids_of lib parsers spot_market precisions now) read ≡ batch pair ids
      → none_gapped (flagged lib parsers spot_market precisions now read (flags pair prev ids))
        ≡ true
      → all_clear (flags pair prev ids) ≡ true
  clear-flagged pair read [] prev h clear = refl
  clear-flagged pair [] (i ∷ ids) prev h clear = absurd (ground arith)
  clear-flagged pair ((q, j, shape) ∷ read) (i ∷ ids) prev h clear =
      let rest = clear-flagged pair read ids (token i) (ground arith) (ground arith) in ground arith

  -- If the events of a batch of the spot market are of one pair, their ids are in order, and no
  -- update that the batch becomes is flagged as gapped, none was lost: every update id behind the
  -- pair's last token, up to the last of the batch, stands in one of the events.
  pub updates-covers :
      (pair : Pair) (events : List (ContentEvent Value))
      (read : List (Pair × DepthEvent × BookShape)) (ids : List DepthEvent) (prev : BinanceSpotSeq)
      (last_seq last : Map Pair BinanceDepthSeq) (out : List BookUpdate) (id : ℕ)
      → read_all lib parsers spot_market precisions now events ≡ some read
      → map (ids_of lib parsers spot_market precisions now) read ≡ batch pair ids
      → last_seq pair ≡ some (spot prev)
      → IsOrdered prev ids
      → updates lib parsers spot_market precisions now events last_seq ≡ some (out, last)
      → none_gapped out ≡ true
      → prev.u_final < id
      → id ≤ last_final prev (map token ids)
      → IsCovered id (map token ids)
  updates-covers pair events read ids prev last_seq last out id g of_pair known o run clear low
        high =
      let (last', p) = deltas-flags pair ids prev last_seq known in
      let made : updates lib parsers spot_market precisions now events last_seq
          ≡ some
              (flagged lib parsers spot_market precisions now read (flags pair prev ids), last') =
        updates-deltas lib parsers spot_market precisions now events read last_seq g
        ∙ rw of_pair (rw p refl) in
      let same : out ≡ flagged lib parsers spot_market precisions now read (flags pair prev ids) =
        ground (arith, made, run) in
      deltas-covers pair ids prev last_seq last' (flags pair prev ids) id known o p
        (clear-flagged pair read ids prev of_pair (subst (λ x. none_gapped x ≡ true) same clear))
        low high
