-- ===== src/Methods/Accounts/Valued.antt =====
-- The balances of Binance, KuCoin and MEXC: v_exchanges_methods/src/binance/spot/account.rs,
-- binance/perp/account.rs, kucoin/account.rs and mexc/account.rs. Assets, pairs, prices and numbers
-- are the libraries'.
pub mod Priced
use v_exchanges.Prelude.{
  Bool, true, false, not, ◌||◌, Option, none, some, List, [], ◌∷◌, Text, codes, Map, Eq, Result, ok,
  err, ◌>>=◌, if◌then◌else◌,
}
use v_exchanges.Methods.Accounts.{Arithmetic, AssetBalance, Balances, total_from}

pub record Assets (Asset Pair : Type 0) : Type 0 where
  -- `(&*text).into()`
  pub asset : Text → Asset
  -- The pair of an asset and USDT.
  pub usdt_pair : Asset → Pair

module _ {Asset Pair Float : Type 0} ⦃e : Eq Asset⦄ (f : Arithmetic Float)
    (lib : Assets Asset Pair) where
  open f use {zero, one, add, mul, is_zero, is_positive}
  open lib use {asset, usdt_pair}

  abbrev pub named : Text → Asset → Bool
  named t a = e.beq a (asset t)

  abbrev pub valued : List (AssetBalance Asset Float) → Balances Asset Float
  valued balances = record { v = balances; total = total_from f zero balances }

  -- Of the spot market of Binance: the asset with what is free and what is locked.
  abbrev pub spot_usd : Map Pair Float → Asset → Float → Option Float
  spot_usd prices a underlying =
      if named (codes "USDT") a
      then some underlying
      else (prices (usdt_pair a) >>= λ p. some (mul underlying p))

  abbrev pub spot_listed :
      Map Pair Float → List (Text × Float × Float) → List (AssetBalance Asset Float)
  spot_listed prices [] = []
  spot_listed prices ((name, free, locked) ∷ rows) =
      let rest = spot_listed prices rows in
      let underlying = add free locked in
      if is_zero underlying
      then rest
      else record {
        asset = asset name;
        underlying = underlying;
        usd = spot_usd prices (asset name) underlying;
      }
        ∷ rest

  unfoldable pub spot_balances : Map Pair Float → List (Text × Float × Float) → Balances Asset Float
  spot_balances prices rows = valued (spot_listed prices rows)

  -- Of futures of Binance: an asset that has a balance must have a price.
  abbrev pub perp_usd : Map Pair Float → Asset → Float → Result Text Float
  perp_usd prices a underlying =
      if is_zero underlying
      then ok zero
      else if named (codes "USDT") a
      then ok underlying
      else elim (prices (usdt_pair a)) [
        | none ↦ err (codes "No usdt price found")
        | some p ↦ ok (mul underlying p)
      ]

  abbrev pub perp_all :
      Map Pair Float → List (Text × Float) → Result Text (List (AssetBalance Asset Float))
  perp_all prices [] = ok []
  perp_all prices ((name, underlying) ∷ rows) = elim (perp_usd prices (asset name) underlying) [
    | err x ↦ err x
    | ok usd ↦ elim (perp_all prices rows) [
      | err x ↦ err x
      | ok rest ↦ ok (record { asset = asset name; underlying = underlying; usd = some usd } ∷ rest)
    ]
  ]

  abbrev pub non_zero : List (AssetBalance Asset Float) → List (AssetBalance Asset Float)
  non_zero [] = []
  non_zero (b ∷ balances) =
      let rest = non_zero balances in if is_zero b.underlying then rest else b ∷ rest

  unfoldable pub perp_balances :
      Map Pair Float → List (Text × Float) → Result Text (Balances Asset Float)
  perp_balances prices rows = elim (perp_all prices rows) [
    | err x ↦ err x
    | ok balances ↦ ok (valued (non_zero balances))
  ]

  -- Of KuCoin: a price that is not found leaves the value out. `fetch` is the request of prices of a
  -- pair, where an error is dropped.
  abbrev pub is_stable : Asset → Bool
  is_stable a =
      named (codes "USDT") a
      || named (codes "USDC") a
      || named (codes "BUSD") a
      || named (codes "DAI") a

  abbrev pub kucoin_usd : (Pair → Option (Map Pair Float)) → Asset → Float → Option Float
  kucoin_usd fetch a underlying =
      if is_zero underlying
      then some zero
      else if is_stable a
      then some underlying
      else (fetch (usdt_pair a) >>= λ prices. prices (usdt_pair a) >>= λ p. some (mul underlying p))

  abbrev pub kucoin_listed :
      (Pair → Option (Map Pair Float)) → List (Text × Float) → List (AssetBalance Asset Float)
  kucoin_listed fetch [] = []
  kucoin_listed fetch ((currency, balance) ∷ rows) =
      let rest = kucoin_listed fetch rows in
      if is_positive balance
      then record {
        asset = asset currency;
        underlying = balance;
        usd = kucoin_usd fetch (asset currency) balance;
      }
        ∷ rest
      else rest

  unfoldable pub kucoin_balances :
      (Pair → Option (Map Pair Float)) → List (Text × Float) → Balances Asset Float
  kucoin_balances fetch rows = valued (kucoin_listed fetch rows)

  -- Of MEXC: the first asset whose price is refused ends it all. `price` is the request of a price.
  abbrev pub mexc_price : (Pair → Result Text Float) → Asset → Result Text Float
  mexc_price price a = if named (codes "USDT") a then ok one else price (usdt_pair a)

  abbrev pub mexc_listed :
      (Pair → Result Text Float)
      → List (Text × Float)
      → Result Text (List (AssetBalance Asset Float))
  mexc_listed price [] = ok []
  mexc_listed price ((currency, equity) ∷ rows) =
      let rest = mexc_listed price rows in
      if is_zero equity then rest else elim (mexc_price price (asset currency)) [
        | err x ↦ err x
        | ok p ↦ elim rest [
          | err x ↦ err x
          | ok balances ↦ ok (
              record { asset = asset currency; underlying = equity; usd = some (mul p equity) }
              ∷ balances)
        ]
      ]

  unfoldable pub mexc_balances :
      (Pair → Result Text Float) → List (Text × Float) → Result Text (Balances Asset Float)
  mexc_balances price rows = elim (mexc_listed price rows) [
    | err x ↦ err x
    | ok balances ↦ ok (valued balances)
  ]
