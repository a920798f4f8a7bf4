-- ===== src/Methods/Accounts/Earning.antt =====
-- The balances of Bybit, `balances_inner` of v_exchanges_methods/src/bybit/account.rs: those of the
-- account with the positions of the earn products merged in. Assets and numbers are the libraries'.
pub mod Once
use v_exchanges.Prelude.{
  Bool, true, false, ◌||◌, Option, none, some, List, [], ◌∷◌, map, Text, codes, text_beq, text_eq,
  Map, Eq, insert, ◌>>=◌, if◌then◌else◌,
}
use v_exchanges.Methods.Accounts.{Arithmetic, AssetBalance, Balances}

-- A coin of the account: its balance and its value.
pub record CoinInfo (Float : Type 0) : Type 0 where
  pub coin : Text
  pub wallet_balance : Float
  pub usd_value : Float

pub record EarnPosition (Float : Type 0) : Type 0 where
  pub coin : Text
  pub amount : Float

-- The coins that are worth a dollar where they have no rate.
abbrev pub is_stable : Text → Bool
is_stable coin =
    text_beq coin (codes "USDT")
    || text_beq coin (codes "USDC")
    || text_beq coin (codes "DAI")
    || text_beq coin (codes "BUSD")

module _ {Asset Float : Type 0} ⦃e : Eq Asset⦄ (f : Arithmetic Float) (asset : Text → Asset) where
  open f use {one, add, mul, div, is_zero, is_positive}

  abbrev pub balance_of : CoinInfo Float → AssetBalance Asset Float
  balance_of r = record {
    asset = asset r.coin;
    underlying = r.wallet_balance;
    usd = some r.usd_value;
  }

  -- The rates of the coins with a balance.
  abbrev pub usd_rates : List (CoinInfo Float) → Map Text Float → Map Text Float
  usd_rates [] rates = rates
  usd_rates (r ∷ coins) rates = usd_rates coins (
      if is_positive r.wallet_balance
      then insert r.coin (div r.usd_value r.wallet_balance) rates
      else rates)

  abbrev pub or_stable : Text → Option Float → Option Float
  or_stable coin (some rate) = some rate
  or_stable coin none = if is_stable coin then some one else none

  abbrev pub add_usd : Float → Option Float → Option Float
  add_usd usd none = none
  add_usd usd (some old) = some (add old usd)

  -- Into the first balance of the asset, or behind all.
  unfoldable pub merge :
      Asset → Float → Float → List (AssetBalance Asset Float) → List (AssetBalance Asset Float)
  merge a amount usd [] = record { asset = a; underlying = amount; usd = some usd } ∷ []
  merge a amount usd (b ∷ balances) =
      let rest = merge a amount usd balances in
      if e.beq b.asset a
      then record b { underlying = add b.underlying amount; usd = add_usd usd b.usd } ∷ balances
      else b ∷ rest

  -- What a position that has a rate does to the balances and to the total.
  abbrev pub earned :
      EarnPosition Float
      → Option Float
      → List (AssetBalance Asset Float) × Float
      → List (AssetBalance Asset Float) × Float
  earned pos none state = state
  earned pos (some rate) (balances, total) = (
    merge (asset pos.coin) pos.amount (mul pos.amount rate) balances,
    add total (mul pos.amount rate),
  )

  -- A position of nothing, and one without a rate, is skipped.
  unfoldable pub add_position :
      Map Text Float
      → EarnPosition Float
      → List (AssetBalance Asset Float) × Float
      → List (AssetBalance Asset Float) × Float
  add_position rates pos state =
      if is_zero pos.amount then state else earned pos (or_stable pos.coin (rates pos.coin)) state

  abbrev pub add_positions :
      Map Text Float
      → List (EarnPosition Float)
      → List (AssetBalance Asset Float) × Float
      → List (AssetBalance Asset Float) × Float
  add_positions rates [] state = state
  add_positions rates (pos ∷ positions) state =
      add_positions rates positions (add_position rates pos state)

  -- The responses of the categories in turn; a failed one is passed over.
  abbrev pub add_categories :
      Map Text Float
      → List (Option (List (EarnPosition Float)))
      → List (AssetBalance Asset Float) × Float
      → List (AssetBalance Asset Float) × Float
  add_categories rates [] state = state
  add_categories rates (none ∷ responses) state = add_categories rates responses state
  add_categories rates (some positions ∷ responses) state =
      add_categories rates responses (add_positions rates positions state)

  abbrev pub balances_from : List (AssetBalance Asset Float) × Float → Balances Asset Float
  balances_from (balances, total) = record { v = balances; total = total }

  -- The accounts must be one; what of it is not, is a panic.
  unfoldable pub balances_inner :
      List (List (CoinInfo Float) × Float)
      → List (Option (List (EarnPosition Float)))
      → Option (Balances Asset Float)
  balances_inner ((coins, total_equity) ∷ []) responses = some (
      balances_from (
        add_categories (usd_rates coins (λ _. none)) responses
          (map balance_of coins, total_equity)))
  balances_inner _ responses = none
