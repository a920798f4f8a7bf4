-- ===== src/Tests/Accounts.antt =====
-- The theorems on balances and on the permissions of keys.
use v_exchanges.Prelude.{
  ℕ, ◌+◌, ◌*◌, ◌/◌, ◌≡◌, true, Option, none, some, List, [], ◌∷◌, ◌++◌, map, Text, codes, text_beq,
  text_eq, ok, Map, ltb, ◌==◌, if◌then◌else◌, ◌||◌,
}
use v_exchanges.Methods.Accounts.{Arithmetic, Balances, BybitPermissions, of_bybit}
use v_exchanges.Methods.Accounts.Permitted.{
  futures_in, may_order, may_trade_derivatives, of_bybit-futures,
}
use v_exchanges.Methods.Accounts.Valued.{Assets, perp_balances}
use v_exchanges.Methods.Accounts.Valued.Priced.{is_ok, all_priced, all_told, perp_balances-told}
use v_exchanges.Methods.Accounts.Earning.{CoinInfo, EarnPosition, balances_inner}
use v_exchanges.Methods.Accounts.Earning.Once.{Extends, assets_of, balances_inner-Extends}

-- Whole numbers in place of `f64`, which rounds as well.
abbrev whole : Arithmetic ℕ
whole = record {
  zero = 0;
  one = 1;
  add = λ a b. a + b;
  mul = λ a b. a * b;
  div = λ a b. a / b;
  is_zero = λ a. a == 0;
  is_positive = λ a. ltb 0 a;
}

abbrev same : Text → Text
same t = t

abbrev coin : Text → ℕ → ℕ → CoinInfo ℕ
coin name balance value = record { coin = name; wallet_balance = balance; usd_value = value }

abbrev position : Text → ℕ → EarnPosition ℕ
position name amount = record { coin = name; amount = amount }

abbrev coins : List (CoinInfo ℕ)
coins = coin (codes "BTC") 2 200 ∷ coin (codes "ETH") 0 0 ∷ []

-- Of the positions one is of a coin of the account, one of a stable coin, and one has no rate.
abbrev responses : List (Option (List (EarnPosition ℕ)))
responses =
    some (position (codes "BTC") 1 ∷ position (codes "USDT") 40 ∷ position (codes "XYZ") 3 ∷ [])
    ∷ none
    ∷ []

balances_inner-Extends_example :
    (b : Balances Text ℕ) × (balances_inner whole same ((coins, 200) ∷ []) responses ≡ some b)
    × Extends whole same (map (λ r. same r.coin) coins) (assets_of whole same b.v)
balances_inner-Extends_example = balances_inner-Extends whole same coins 200 responses

abbrev assets : Assets Text Text
assets = record { asset = same; usdt_pair = λ a. a ++ codes "-USDT" }

abbrev prices : Map Text ℕ
prices p = if text_beq p (codes "BTC-USDT") then some 100 else none

abbrev held : List (Text × ℕ)
held = (codes "BTC", 2) ∷ (codes "USDT", 50) ∷ (codes "XYZ", 0) ∷ []

perp_balances-told_example :
    (is_ok whole assets (perp_balances whole assets prices held)
      ≡ all_priced whole assets prices held)
    × ((b : Balances Text ℕ)
        → perp_balances whole assets prices held ≡ ok b
        → all_told whole assets b.v ≡ true)
perp_balances-told_example = perp_balances-told whole assets prices held

abbrev permissions : BybitPermissions
permissions = record {
  contract_trade = codes "Position" ∷ [];
  spot = codes "SpotTrade" ∷ [];
  wallet = codes "Withdraw" ∷ [];
  options = [];
  derivatives = codes "DerivativesTrade" ∷ [];
  exchange = codes "ExchangeHistory" ∷ [];
  earn = [];
}

of_bybit-futures_example :
    futures_in (of_bybit permissions)
    ≡ (if may_order permissions || may_trade_derivatives permissions then 1 else 0)
of_bybit-futures_example = of_bybit-futures permissions
