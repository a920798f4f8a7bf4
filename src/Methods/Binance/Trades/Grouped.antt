-- ===== src/Methods/Binance/Trades/Grouped.antt =====
-- How the trades of a batch are grouped by pair.
use v_exchanges.Prelude.{
  ℤ, ◌≡◌, ◌∙◌, sym, ap, refl, Bool, true, false, not, ◌&&◌, some, List, [], ◌∷◌, ◌++◌, Map, Ord, Eq,
  map, arith, Bool-cases, inl, inr, if◌then◌else◌, is_empty,
}
use mathlib.Core.List.{append_assoc, append-nil}
use v_exchanges.Ws.Messages.{ContentEvent}
use v_exchanges.Methods.Info.{Instrument}
use v_exchanges.Methods.Trades
use v_exchanges.Methods.Trades.{InnerTrade, PrecisionPriceQty, BatchTrades}
use v_exchanges.Methods.Streams.{Readers}
use v_exchanges.Methods.Binance.Trades.{
  Parsers, Groups, push_trade, grouped, batches, read_trades, next,
}

is_empty-append : (ts : List InnerTrade) (t : InnerTrade) → is_empty (ts ++ t ∷ []) ≡ false
is_empty-append [] t = refl
is_empty-append (_ ∷ _) t = refl

last-some :
    (t : InnerTrade) (ts : List InnerTrade) → (u : InnerTrade) × (Trades.last (t ∷ ts) ≡ some u)
last-some t [] = (t, refl)
last-some t (u ∷ ts) = last-some u ts

new-some :
    (prec : PrecisionPriceQty) (t : InnerTrade) (ts : List InnerTrade) (now : ℤ)
    → (b : BatchTrades) × (Trades.new prec (t ∷ ts) now now ≡ some b) × (b.trades ≡ t ∷ ts)
unfolding Trades.new
new-some prec t ts now =
    let (u, h) = last-some t ts in
    (
      record { prec = prec; trades = t ∷ ts; ts_event = u.time; ts_init = now; ts_last = now },
      rw h refl,
      refl,
    )

module _ {Pair : Type 0} ⦃e : Eq Pair⦄ ⦃o : Ord Pair⦄ where
  abbrev pub find : Pair → Groups Pair → List InnerTrade
  find p [] = []
  find p ((q, _, ts) ∷ groups) = if e.beq q p then ts else find p groups

  abbrev pub before : Pair → Pair → Bool
  before p q = o.le p q && not (e.beq p q)

  abbrev pub precedes : Pair → Groups Pair → Bool
  precedes p [] = true
  precedes p ((q, _, _) ∷ groups) = before p q && precedes p groups

  abbrev pub ascending : Groups Pair → Bool
  ascending [] = true
  ascending ((p, _, ts) ∷ groups) = not (is_empty ts) && precedes p groups && ascending groups

  -- The trades of a pair, in order.
  abbrev pub trades_of : Pair → List (Pair × PrecisionPriceQty × InnerTrade) → List InnerTrade
  trades_of p [] = []
  trades_of p ((q, _, t) ∷ trades) =
      let rest = trades_of p trades in if e.beq q p then t ∷ rest else rest

  before_trans : (p q r : Pair) → before p q ≡ true → before q r ≡ true → before p r ≡ true
  before_trans p q r h k =
      ground (arith, o.trans p q r, o.antisymm p q, e.beq_iff p q, e.beq_iff p r, e.beq_iff q r)

  precedes_trans :
      (p q : Pair) (groups : Groups Pair)
      → before p q ≡ true
      → precedes q groups ≡ true
      → precedes p groups ≡ true
  precedes_trans p q [] h k = refl
  precedes_trans p q ((r, _, _) ∷ groups) h k =
      ground (arith, before_trans p q r, precedes_trans p q groups)

  find-precedes : (p : Pair) (groups : Groups Pair) → precedes p groups ≡ true → find p groups ≡ []
  find-precedes p [] h = refl
  find-precedes p ((q, _, _) ∷ groups) h =
      ground (arith, find-precedes p groups, e.beq_iff p q, e.beq_iff q p)

  precedes-push_trade :
      (p pair : Pair) (prec : PrecisionPriceQty) (t : InnerTrade) (groups : Groups Pair)
      → before p pair ≡ true
      → precedes p groups ≡ true
      → precedes p (push_trade pair prec t groups) ≡ true
  precedes-push_trade p pair prec t [] h k = ground arith
  precedes-push_trade p pair prec t ((q, r, ts) ∷ groups) h k =
      ground (arith, precedes-push_trade p pair prec t groups)

  ascending-push_trade :
      (pair : Pair) (prec : PrecisionPriceQty) (t : InnerTrade) (groups : Groups Pair)
      → ascending groups ≡ true
      → ascending (push_trade pair prec t groups) ≡ true
  ascending-push_trade pair prec t [] h = refl
  ascending-push_trade pair prec t ((q, r, ts) ∷ groups) h = ground (
    arith,
    is_empty-append ts t,
    o.total q pair,
    e.beq_iff q pair,
    e.beq_iff pair q,
    precedes_trans pair q groups,
    precedes-push_trade q pair prec t groups,
    ascending-push_trade pair prec t groups,
  )

  find-push_trade :
      (p pair : Pair) (prec : PrecisionPriceQty) (t : InnerTrade) (groups : Groups Pair)
      → ascending groups ≡ true
      → find p (push_trade pair prec t groups)
        ≡ find p groups ++ (if e.beq pair p then t ∷ [] else [])
  find-push_trade p pair prec t [] h = ground arith
  find-push_trade p pair prec t ((q, r, ts) ∷ groups) h = ground (
    arith,
    o.total q pair,
    e.beq_iff q pair,
    e.beq_iff pair q,
    e.beq_iff pair p,
    e.beq_iff q p,
    append-nil ts,
    append-nil (find p groups),
    precedes_trans pair q groups,
    find-precedes p groups,
    find-push_trade p pair prec t groups,
  )

  ascending-grouped :
      (trades : List (Pair × PrecisionPriceQty × InnerTrade)) (groups : Groups Pair)
      → ascending groups ≡ true
      → ascending (grouped trades groups) ≡ true
  ascending-grouped [] groups h = h
  ascending-grouped ((pair, prec, t) ∷ trades) groups h =
      ascending-grouped trades (push_trade pair prec t groups)
        (ascending-push_trade pair prec t groups h)

  find-grouped :
      (p : Pair) (trades : List (Pair × PrecisionPriceQty × InnerTrade)) (groups : Groups Pair)
      → ascending groups ≡ true
      → find p (grouped trades groups) ≡ find p groups ++ trades_of p trades
  find-grouped p [] groups h = sym (append-nil (find p groups))
  find-grouped p ((pair, prec, t) ∷ trades) groups h =
      let pushed = push_trade pair prec t groups in
      find-grouped p trades pushed (ascending-push_trade pair prec t groups h)
      ∙ ap (λ ts. ts ++ trades_of p trades) (find-push_trade p pair prec t groups h)
      ∙ elim (Bool-cases (e.beq pair p)) [
        | inl b ↦ rw b (append_assoc (find p groups) (t ∷ []) (trades_of p trades))
        | inr b ↦ rw b (ap (λ ts. ts ++ trades_of p trades) (append-nil (find p groups)))
      ]

  -- What is dated and priced is all that there is.
  abbrev pub trades_in : Pair × PrecisionPriceQty × List InnerTrade → List InnerTrade
  trades_in (_, _, ts) = ts

  batches-some :
      (now : ℤ) (groups : Groups Pair)
      → ascending groups ≡ true
      → (bs : List BatchTrades) × (batches now groups ≡ some bs)
        × (map (λ b. b.trades) bs ≡ map trades_in groups)
  batches-some now [] h = ([], refl, refl)
  batches-some now ((p, prec, []) ∷ groups) h = absurd (ground arith)
  batches-some now ((p, prec, t ∷ ts) ∷ groups) h =
      let (bs, made, same) = batches-some now groups (ground arith) in
      let (b, new, trades) = new-some prec t ts now in (b ∷ bs, rw new (rw made refl), ground arith)

module _ {Pair Value : Type 0} ⦃e : Eq Pair⦄ ⦃o : Ord Pair⦄ (lib : Readers Pair)
    (parsers : Parsers Value) where
  -- When every event of a batch is read, the answer is made without a panic: its batches are those
  -- of groups of trades, none of them empty and each of a pair greater than the one before, and the
  -- group of a pair holds just the trades of that pair, in the order they came.
  pub next-grouped :
      (instrument : Instrument) (precisions : Map Pair PrecisionPriceQty) (now : ℤ)
      (events : List (ContentEvent Value)) (trades : List (Pair × PrecisionPriceQty × InnerTrade))
      → read_trades lib parsers instrument precisions events ≡ some trades
      → (groups : Groups Pair) × (bs : List BatchTrades) × (next lib parsers instrument precisions
            now events
          ≡ some bs)
        × (map (λ b. b.trades) bs ≡ map trades_in groups)
        × (ascending groups ≡ true)
        × ((p : Pair) → find p groups ≡ trades_of p trades)
  unfolding next
  next-grouped instrument precisions now events trades h =
      let up = ascending-grouped trades [] refl in
      let (bs, made, same) = batches-some now (grouped trades []) up in
      (grouped trades [], bs, rw h made, same, up, λ p. find-grouped p trades [] refl)
