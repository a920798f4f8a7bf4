-- ===== src/Methods/Accounts/Permitted.antt =====
-- Which keys may trade futures.
use v_exchanges.Prelude.{
  ℕ, ◌+◌, ◌≡◌, ◌∙◌, ap, refl, Bool, true, false, not, ◌||◌, ◌&&◌, List, [], ◌∷◌, ◌++◌, map, Text,
  codes, arith, Bool-cases, inl, inr, if◌then◌else◌,
}
use v_exchanges.Methods.Accounts.{
  KeyPermission, futures, options, withdraw, transfer, spot_trade, earn, BybitPermissions, push_if,
  any_is, is_futures, has_futures, history, bybit_trading, of_bybit,
}

abbrev pub futures_in : List KeyPermission → ℕ
futures_in [] = 0
futures_in (p ∷ out) = let rest = futures_in out in if is_futures p then 1 + rest else rest

futures_in-append :
    (out more : List KeyPermission) → futures_in (out ++ more) ≡ futures_in out + futures_in more
futures_in-append [] more = omega arith
futures_in-append (p ∷ out) more = ground (arith, futures_in-append out more)

futures_in-push_other :
    (b : Bool) (p : KeyPermission) (out : List KeyPermission)
    → is_futures p ≡ false
    → futures_in (push_if b p out) ≡ futures_in out
unfolding push_if
futures_in-push_other true p out h = futures_in-append out (p ∷ []) ∙ ground arith
futures_in-push_other false p out h = refl

futures_in-history : (texts : List Text) → futures_in (map history texts) ≡ 0
futures_in-history [] = refl
futures_in-history (t ∷ texts) = futures_in-history texts

has_futures-in : (out : List KeyPermission) → futures_in out ≡ 0 → has_futures out ≡ false
has_futures-in [] h = refl
has_futures-in (p ∷ out) h = ground (arith, has_futures-in out)

has_futures-none : (out : List KeyPermission) → has_futures out ≡ false → futures_in out ≡ 0
has_futures-none [] h = refl
has_futures-none (p ∷ out) h = ground (arith, has_futures-none out)

abbrev pub may_order : BybitPermissions → Bool
may_order p = any_is (codes "Order") p.contract_trade || any_is (codes "Position") p.contract_trade

abbrev pub may_trade_derivatives : BybitPermissions → Bool
may_trade_derivatives p = any_is (codes "DerivativesTrade") p.derivatives

plus_zero : (n : ℕ) → n + 0 ≡ n
plus_zero n = omega arith

first-futures : (b : Bool) → futures_in (push_if b futures []) ≡ (if b then 1 else 0)
unfolding push_if
first-futures true = refl
first-futures false = refl

trading-futures :
    (p : BybitPermissions) → futures_in (bybit_trading p) ≡ (if may_order p then 1 else 0)
trading-futures p =
    futures_in-push_other (any_is (codes "OptionsTrade") p.options) options _ refl
    ∙ futures_in-push_other (any_is (codes "Withdraw") p.wallet) withdraw _ refl
    ∙ futures_in-push_other
        (any_is (codes "AccountTransfer") p.wallet || any_is (codes "SubMemberTransfer") p.wallet)
        transfer _ refl
    ∙ futures_in-push_other (any_is (codes "SpotTrade") p.spot) spot_trade _ refl
    ∙ first-futures (may_order p)

derivatives-futures :
    (b c : Bool) (out : List KeyPermission)
    → futures_in out ≡ (if b then 1 else 0)
    → futures_in (push_if (c && not (has_futures out)) futures out) ≡ (if b || c then 1 else 0)
unfolding push_if
derivatives-futures b c out h = elim (Bool-cases (has_futures out)) [
  | inl g ↦ ground (arith, has_futures-in out)
  | inr g ↦ ground (arith, has_futures-none out, futures_in-append out (futures ∷ []))
]

-- A key of Bybit gets the permission of futures once, if it may order or hold positions of contracts
-- or trade derivatives, and never otherwise, whatever else it may do.
pub of_bybit-futures :
    (p : BybitPermissions)
    → futures_in (of_bybit p) ≡ (if may_order p || may_trade_derivatives p then 1 else 0)
unfolding of_bybit
of_bybit-futures p =
    let out =
      push_if (may_trade_derivatives p && not (has_futures (bybit_trading p))) futures
        (bybit_trading p) in
    futures_in-push_other (any_is (codes "Earn") p.earn) earn _ refl
    ∙ futures_in-append out (map history p.exchange)
    ∙ ap (λ n. futures_in out + n) (futures_in-history p.exchange)
    ∙ plus_zero (futures_in out)
    ∙ derivatives-futures (may_order p) (may_trade_derivatives p) (bybit_trading p)
        (trading-futures p)
