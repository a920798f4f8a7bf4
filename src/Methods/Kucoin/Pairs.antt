-- ===== src/Methods/Kucoin/Pairs.antt =====
-- Which price a pair has, and which pairs have one.
use v_exchanges.Prelude.{
  ◌≡◌, ◌⊎◌, ◌≢◌, ◌∙◌, ap, true, Option, some, List, ◌∷◌, ◌++◌, Text, codes, Eq, arith, Option-cases,
  Bool-cases, inl, inr, refl, Bool, not, ◌&&◌, [], if◌then◌else◌, text_beq, text_beq-eq,
}
use v_exchanges.Methods.Tables.{wanted}
use v_exchanges.Methods.Tables.Collected.{silent, collect-last, collect-keys, offered-wanted}
use v_exchanges.Methods.Kucoin.{
  ContractInfo, TickerInfo, Libraries, futures_pair, futures_price, futures_prices, spot_price,
  prices, spot_pair, ends_with, to_kucoin_futures_base, from_kucoin_futures_base,
}

-- Only "XBT" itself is no base that comes back from the futures.
pub from-to :
    (base : Text)
    → base ≢ codes "XBT"
    → from_kucoin_futures_base (to_kucoin_futures_base base) ≡ base
from-to base n = elim (Bool-cases (text_beq base (codes "BTC"))) [
  | inl b ↦ rw (text_beq-eq base (codes "BTC") b) refl
  | inr b ↦ elim (Bool-cases (text_beq base (codes "XBT"))) [
    | inl c ↦ absurd (n (text_beq-eq base (codes "XBT") c))
    | inr c ↦ ground arith
  ]
]

module _ {Float Pair : Type 0} ⦃e : Eq Pair⦄ (lib : Libraries Float Pair) where
  spot_price-wanted :
      (asked : Option (List Pair)) (t : TickerInfo Float) (k : Pair) (w : Float)
      → spot_price lib asked t ≡ some (k, w)
      → wanted asked k ≡ true
  spot_price-wanted asked t k w h = elim (Option-cases (spot_pair lib t.symbol)) [
    | inl f ↦ ground arith
    | inr (p, f) ↦ offered-wanted asked p k t.last w (ground arith)
  ]

  futures_price-wanted :
      (asked : Option (List Pair)) (c : ContractInfo Float) (k : Pair) (w : Float)
      → futures_price lib asked c ≡ some (k, w)
      → wanted asked k ≡ true
  futures_price-wanted asked c k w h =
      offered-wanted asked (futures_pair lib c) k c.last_trade_price w (ground arith)

  -- When prices of some pairs are asked for, no other pair gets one, of the spot market or of
  -- futures.
  pub prices-wanted :
      (asked : Option (List Pair)) (tickers : List (TickerInfo Float))
      (contracts : List (ContractInfo Float)) (p : Pair) (v : Float)
      → (prices lib asked tickers p ≡ some v) ⊎ (futures_prices lib asked contracts p ≡ some v)
      → wanted asked p ≡ true
  unfolding prices futures_prices
  prices-wanted asked tickers contracts p v (inl h) =
      collect-keys (spot_price lib asked) (wanted asked) tickers _ (spot_price-wanted asked)
        (λ k v h. ground arith) p v h
  prices-wanted asked tickers contracts p v (inr h) =
      collect-keys (futures_price lib asked) (wanted asked) contracts _ (futures_price-wanted asked)
        (λ k v h. ground arith) p v h

  same :
      (base : Text) (c : ContractInfo Float)
      → base ≢ codes "XBT"
      → c.base_currency ≡ to_kucoin_futures_base base
      → futures_pair lib c ≡ lib.pair base c.quote_currency
  same base c n b =
      ap (λ x. lib.pair x c.quote_currency) (ap from_kucoin_futures_base b ∙ from-to base n)

  futures_price-some :
      (asked : Option (List Pair)) (c : ContractInfo Float) (p : Pair)
      → ends_with 77 c.symbol ≡ true
      → futures_pair lib c ≡ p
      → wanted asked p ≡ true
      → futures_price lib asked c ≡ some (p, c.last_trade_price)
  futures_price-some asked c p m eq w = rw m (rw eq (rw w refl))

  -- Whether a contract says the price of a pair: its symbol ends with 'M', and the pair is of its base,
  -- by its common name, and its quote.
  abbrev pub prices_pair : Pair → ContractInfo Float → Bool
  prices_pair p c =
      ends_with 77 c.symbol
      && e.beq
          (lib.pair
            (if text_beq c.base_currency (codes "XBT") then codes "BTC" else c.base_currency)
            c.quote_currency)
          p

  abbrev pub none_prices : Pair → List (ContractInfo Float) → Bool
  none_prices p [] = true
  none_prices p (c ∷ contracts) = not (prices_pair p c) && none_prices p contracts

  none_prices-silent :
      (asked : Option (List Pair)) (p : Pair) (contracts : List (ContractInfo Float))
      → none_prices p contracts ≡ true
      → silent (futures_price lib asked) p contracts ≡ true
  none_prices-silent asked p [] h = refl
  none_prices-silent asked p (c ∷ contracts) h =
      let rest = none_prices-silent asked p contracts (ground arith) in
      elim (Bool-cases (ends_with 77 c.symbol)) [
        | inr m ↦ rw m rest
        | inl m ↦ elim (Bool-cases (wanted asked (futures_pair lib c))) [
          | inr w ↦ rw m (rw w rest)
          | inl w ↦ rw m (rw w (ground arith))
        ]
      ]

  -- The price of a pair among futures is the last one of the contracts for it: of those whose symbol
  -- ends with 'M' and whose base currency is what KuCoin calls the pair's base, which may not be
  -- "XBT".
  pub futures_prices-latest :
      (asked : Option (List Pair)) (older newer : List (ContractInfo Float))
      (c : ContractInfo Float) (base : Text)
      → base ≢ codes "XBT"
      → c.base_currency ≡ to_kucoin_futures_base base
      → ends_with 77 c.symbol ≡ true
      → wanted asked (lib.pair base c.quote_currency) ≡ true
      → none_prices (lib.pair base c.quote_currency) newer ≡ true
      → futures_prices lib asked (older ++ c ∷ newer) (lib.pair base c.quote_currency)
        ≡ some c.last_trade_price
  unfolding futures_prices
  futures_prices-latest asked older newer c base n b m w quiet =
      collect-last (futures_price lib asked) _ _ older c newer _
        (futures_price-some asked c (lib.pair base c.quote_currency) m (same base c n b) w)
        (none_prices-silent asked _ newer quiet)
