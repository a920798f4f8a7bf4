-- ===== src/Tests/Market.antt =====
-- The theorems on the market data of KuCoin.
use v_exchanges.Prelude.{
  ℕ, true, false, ap, text_beq, ◌≢◌, ◌≡◌, refl, some, List, [], ◌∷◌, ◌++◌, Text, codes, text_eq,
}
use v_exchanges.Methods.Kucoin.{ContractInfo, Libraries, futures_prices}
use v_exchanges.Methods.Kucoin.Pairs.{futures_prices-latest}

-- A pair is the text of its base and its quote, and a number stands for itself.
abbrev libraries : Libraries ℕ Text
libraries = record {
  pair = λ base quote. base ++ codes "-" ++ quote;
  is_zero = λ _. true;
  log10 = λ x. x;
  negated = λ x. x;
  max_zero = λ x. x;
  round_u8 = λ x. x;
}

abbrev contract : Text → Text → ℕ → ContractInfo ℕ
contract symbol base price = record {
  symbol = symbol;
  base_currency = base;
  quote_currency = codes "USDT";
  status = codes "Open";
  tick_size = 1;
  lot_size = 1;
  last_trade_price = price;
}

abbrev bitcoin : ContractInfo ℕ
bitcoin = contract (codes "XBTUSDTM") (codes "XBT") 95_000

-- A contract that expires has another symbol.
abbrev newer : List (ContractInfo ℕ)
newer =
    contract (codes "XBTMU26") (codes "XBT") 96_000
    ∷ contract (codes "ETHUSDTM") (codes "ETH") 3_000
    ∷ []

btc_other : codes "BTC" ≢ codes "XBT"
btc_other e = is_false (ap (text_beq (codes "BTC")) e)
  where
    is_false : true ≢ false
    is_false h = cc

futures_prices-latest_example :
    futures_prices libraries
      (some (codes "BTC-USDT" ∷ []))
      (bitcoin ∷ [] ++ bitcoin ∷ newer)
      (codes "BTC-USDT")
    ≡ some 95_000
futures_prices-latest_example =
    futures_prices-latest libraries (some (codes "BTC-USDT" ∷ [])) (bitcoin ∷ []) newer bitcoin
      (codes "BTC") btc_other refl refl refl refl
