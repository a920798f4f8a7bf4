-- ===== src/Methods/Accounts.antt =====
-- The accounts of v_exchanges_methods/src/core.rs, and the permissions of keys: core.rs,
-- binance/spot/account.rs (and the same code in binance/perp/account.rs), and bybit/account.rs. Assets
-- and what is computed of `f64` are the libraries'.
pub mod Permitted
pub mod Valued
pub mod Earning
use v_exchanges.Prelude.{
  Bool, true, false, not, ◌||◌, ◌&&◌, Option, none, some, List, [], ◌∷◌, ◌++◌, map, Text, codes,
  text_beq, split, if◌then◌else◌,
}

pub record AssetBalance (Asset Float : Type 0) : Type 0 where
  pub asset : Asset
  pub underlying : Float
  pub usd : Option Float

pub record Balances (Asset Float : Type 0) : Type 0 where
  pub v : List (AssetBalance Asset Float)
  pub total : Float

-- What the code asks of `f64`.
pub record Arithmetic (Float : Type 0) : Type 0 where
  pub zero : Float
  pub one : Float
  pub add : Float → Float → Float
  pub mul : Float → Float → Float
  pub div : Float → Float → Float
  pub is_zero : Float → Bool
  pub is_positive : Float → Bool

module _ {Float : Type 0} (f : Arithmetic Float) where
  abbrev pub usd_or_zero : Option Float → Float
  usd_or_zero none = f.zero
  usd_or_zero (some v) = v

module _ {Asset Float : Type 0} (f : Arithmetic Float) where
  -- The values of the balances, added to another from the first on.
  abbrev pub total_from : Float → List (AssetBalance Asset Float) → Float
  total_from acc [] = acc
  total_from acc (b ∷ balances) = total_from (f.add acc (usd_or_zero f b.usd)) balances

pub data KeyPermission : Type 0 where
  read spot_trade futures options margin withdraw transfer earn : KeyPermission
  other : Text → KeyPermission

-- `KeyPermission::from_kucoin`
unfoldable pub from_kucoin : Text → KeyPermission
from_kucoin s =
    if text_beq s (codes "General")
    then read
    else if text_beq s (codes "Spot")
    then spot_trade
    else if text_beq s (codes "Futures")
    then futures
    else if text_beq s (codes "Options")
    then options
    else if text_beq s (codes "Margin")
    then margin
    else if text_beq s (codes "Withdrawal")
    then withdraw
    else if text_beq s (codes "FlexTransfers")
    then transfer
    else if text_beq s (codes "Earn")
    then earn
    else other s

-- The permissions of a key of KuCoin, none of it if the response is an error; `trim` is the standard
-- library's.
abbrev pub kucoin_permissions : (Text → Text) → Option Text → List KeyPermission
kucoin_permissions trim none = []
kucoin_permissions trim (some permission) = map (λ s. from_kucoin (trim s)) (split 44 permission)

-- `ApiRestrictionsResponse`, as far as it is read for the permissions.
pub record ApiRestrictionsResponse : Type 0 where
  pub enable_reading : Bool
  pub enable_futures : Bool
  pub enable_spot_and_margin_trading : Bool
  pub enable_withdrawals : Bool
  pub enable_internal_transfer : Bool
  pub enable_margin_loan : Option Bool
  pub enable_vanilla_options : Bool
  pub permits_universal_transfer : Bool
  pub enable_portfolio_margin_trading : Bool
  pub enable_fix_api_trade : Bool
  pub enable_fix_read_only : Bool
  pub enable_margin : Bool

-- A push under a condition.
unfoldable pub push_if : Bool → KeyPermission → List KeyPermission → List KeyPermission
push_if b p out = if b then out ++ p ∷ [] else out

abbrev pub or_false : Option Bool → Bool
or_false none = false
or_false (some b) = b

-- `From<ApiRestrictionsResponse> for Vec<KeyPermission>`
unfoldable pub of_restrictions : ApiRestrictionsResponse → List KeyPermission
of_restrictions r = push_if r.enable_fix_read_only (other (codes "FixReadOnly")) (
    push_if r.enable_fix_api_trade (other (codes "FixApiTrade")) (
      push_if r.enable_portfolio_margin_trading (other (codes "PortfolioMarginTrading")) (
        push_if r.enable_vanilla_options options (
          push_if (or_false r.enable_margin_loan || r.enable_margin) margin (
            push_if (r.enable_internal_transfer || r.permits_universal_transfer) transfer (
              push_if r.enable_withdrawals withdraw (
                push_if r.enable_spot_and_margin_trading spot_trade
                  (push_if r.enable_futures futures (push_if r.enable_reading read [])))))))))

pub record BybitPermissions : Type 0 where
  pub contract_trade : List Text
  pub spot : List Text
  pub wallet : List Text
  pub options : List Text
  pub derivatives : List Text
  pub exchange : List Text
  pub earn : List Text

abbrev pub any_is : Text → List Text → Bool
any_is t [] = false
any_is t (s ∷ texts) = text_beq s t || any_is t texts

abbrev pub is_futures : KeyPermission → Bool
is_futures futures = true
is_futures _ = false

abbrev pub has_futures : List KeyPermission → Bool
has_futures [] = false
has_futures (p ∷ out) = is_futures p || has_futures out

-- The pushes up to that of the derivatives.
abbrev pub bybit_trading : BybitPermissions → List KeyPermission
bybit_trading p = push_if (any_is (codes "OptionsTrade") p.options) options (
    push_if (any_is (codes "Withdraw") p.wallet) withdraw (
      push_if
        (any_is (codes "AccountTransfer") p.wallet || any_is (codes "SubMemberTransfer") p.wallet)
        transfer
        (push_if (any_is (codes "SpotTrade") p.spot) spot_trade (
          push_if
            (any_is (codes "Order") p.contract_trade || any_is (codes "Position") p.contract_trade)
            futures []))))

abbrev pub history : Text → KeyPermission
history s = other (codes "ExchangeHistory:" ++ s)

-- `From<BybitPermissions> for Vec<KeyPermission>`
unfoldable pub of_bybit : BybitPermissions → List KeyPermission
of_bybit p =
    let out = bybit_trading p in
    push_if (any_is (codes "Earn") p.earn) earn (
      push_if (any_is (codes "DerivativesTrade") p.derivatives && not (has_futures out)) futures out
      ++ map history p.exchange)
