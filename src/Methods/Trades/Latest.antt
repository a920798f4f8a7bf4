-- ===== src/Methods/Trades/Latest.antt =====
-- A batch of trades is never empty, and is dated and priced by its last trade.
use v_exchanges.Prelude.{ℤ, ◌≡◌, refl, some, List, [], ◌∷◌, ◌++◌}
use v_exchanges.Methods.Trades.{InnerTrade, PrecisionPriceQty, BatchTrades, last, new, last_price}

last-append : (ts : List InnerTrade) (t : InnerTrade) → last (ts ++ t ∷ []) ≡ some t
last-append [] t = refl
last-append (u ∷ []) t = refl
last-append (u ∷ v ∷ ts) t = last-append (v ∷ ts) t

abbrev dated : PrecisionPriceQty → List InnerTrade → InnerTrade → ℤ → ℤ → BatchTrades
dated prec trades t ts_init ts_last = record {
  prec = prec;
  trades = trades;
  ts_event = t.time;
  ts_init = ts_init;
  ts_last = ts_last;
}

-- A batch of some trades and a last one is made without a panic, whatever the times; its event time
-- and its last price are those of the last trade, at the precision of the batch.
pub new-last :
    (prec : PrecisionPriceQty) (before : List InnerTrade) (t : InnerTrade) (ts_init ts_last : ℤ)
    → (b : BatchTrades) × (new prec (before ++ t ∷ []) ts_init ts_last ≡ some b)
      × (b.ts_event ≡ t.time)
      × (last_price b ≡ some (record { raw = t.price; precision = prec.price }))
unfolding new last_price
new-last prec [] t ts_init ts_last = (dated prec (t ∷ []) t ts_init ts_last, refl, refl, refl)
new-last prec (u ∷ us) t ts_init ts_last =
    let e = last-append (u ∷ us) t in
    (
      dated prec (u ∷ us ++ t ∷ []) t ts_init ts_last,
      rw (new, e) refl,
      refl,
      rw (last_price, e) refl,
    )
