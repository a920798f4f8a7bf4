-- ===== src/Methods/Accounts/Earning/Once.antt =====
-- An asset stands once among the balances of Bybit.
use v_exchanges.Prelude.{
  ◌≡◌, ◌∙◌, sym, ap, refl, Bool, true, false, not, ◌||◌, ◌&&◌, Option, none, some, List, [], ◌∷◌,
  ◌++◌, map, Text, Map, Eq, arith, if◌then◌else◌, Bool-cases, inl, inr,
}
use mathlib.Core.Path.{subst}
use mathlib.Core.List.{append_assoc, append-nil}
use v_exchanges.Methods.Accounts.{Arithmetic, AssetBalance, Balances}
use v_exchanges.Methods.Accounts.Earning.{
  CoinInfo, EarnPosition, balance_of, usd_rates, or_stable, merge, earned, add_position,
  add_positions, add_categories, balances_from, balances_inner,
}

module _ {Asset : Type 0} ⦃e : Eq Asset⦄ where
  abbrev pub member : Asset → List Asset → Bool
  member a [] = false
  member a (b ∷ assets) = e.beq b a || member a assets

  abbrev pub distinct : List Asset → Bool
  distinct [] = true
  distinct (a ∷ assets) = not (member a assets) && distinct assets

  -- An asset is put behind the others unless it is among them.
  abbrev pub with_asset : Asset → List Asset → List Asset
  with_asset a assets = if member a assets then assets else assets ++ a ∷ []

  member-snoc :
      (a b : Asset) (assets : List Asset)
      → member b (assets ++ a ∷ []) ≡ (member b assets || e.beq a b)
  member-snoc a b [] = ground arith
  member-snoc a b (c ∷ assets) = ground (arith, member-snoc a b assets)

  distinct-snoc :
      (a : Asset) (assets : List Asset)
      → distinct assets ≡ true
      → member a assets ≡ false
      → distinct (assets ++ a ∷ []) ≡ true
  distinct-snoc a [] d m = refl
  distinct-snoc a (c ∷ assets) d m =
      ground (arith, e.beq_iff c a, e.beq_iff a c, member-snoc a c assets, distinct-snoc a assets)

  distinct-with_asset :
      (a : Asset) (assets : List Asset)
      → distinct assets ≡ true
      → distinct (with_asset a assets) ≡ true
  distinct-with_asset a assets d = elim (Bool-cases (member a assets)) [
    | inl m ↦ rw m d
    | inr m ↦ rw m (distinct-snoc a assets d m)
  ]

module _ {Asset Float : Type 0} ⦃e : Eq Asset⦄ (f : Arithmetic Float) (asset : Text → Asset) where
  abbrev pub assets_of : List (AssetBalance Asset Float) → List Asset
  assets_of = map (λ b. b.asset)

  merge-assets :
      (a : Asset) (amount usd : Float) (balances : List (AssetBalance Asset Float))
      → assets_of (merge f asset a amount usd balances) ≡ with_asset a (assets_of balances)
  unfolding merge
  merge-assets a amount usd [] = refl
  merge-assets a amount usd (b ∷ balances) = ground (arith, merge-assets a amount usd balances)

  -- The assets behind the positions begin with those before, and are distinct if these are.
  pub record Extends (before after : List Asset) : Type 0 where
    pub added : (more : List Asset) × (after ≡ before ++ more)
    pub stays : distinct before ≡ true → distinct after ≡ true

  Extends-self : (assets : List Asset) → Extends assets assets
  Extends-self assets = record { added = ([], sym (append-nil assets)); stays = λ d. d }

  Extends-trans : (a b c : List Asset) → Extends a b → Extends b c → Extends a c
  Extends-trans a b c h g =
      let (more, p) = h.added in
      let (later, q) = g.added in
      record {
        added = (more ++ later, q ∙ ap (λ x. x ++ later) p ∙ append_assoc a more later);
        stays = λ d. g.stays (h.stays d);
      }

  Extends-with : (a : Asset) (assets : List Asset) → Extends assets (with_asset a assets)
  Extends-with a assets = elim (Bool-cases (member a assets)) [
    | inl m ↦ record {
      added = ([], rw m (sym (append-nil assets)));
      stays = distinct-with_asset a assets;
    }
    | inr m ↦ record { added = (a ∷ [], rw m refl); stays = distinct-with_asset a assets }
  ]

  abbrev pub State : Type 0
  State = List (AssetBalance Asset Float) × Float

  earned-Extends :
      (pos : EarnPosition Float) (rate : Option Float) (state : State)
      → Extends (assets_of state.0) (assets_of (earned f asset pos rate state).0)
  earned-Extends pos none state = Extends-self (assets_of state.0)
  earned-Extends pos (some rate) (balances, total) =
      rw (merge-assets (asset pos.coin) pos.amount (f.mul pos.amount rate) balances)
        (Extends-with (asset pos.coin) (assets_of balances))

  add_position-Extends :
      (rates : Map Text Float) (pos : EarnPosition Float) (state : State)
      → Extends (assets_of state.0) (assets_of (add_position f asset rates pos state).0)
  unfolding add_position
  add_position-Extends rates pos state = elim (Bool-cases (f.is_zero pos.amount)) [
    | inl z ↦ rw z (Extends-self (assets_of state.0))
    | inr z ↦ rw z (earned-Extends pos (or_stable f asset pos.coin (rates pos.coin)) state)
  ]

  add_positions-Extends :
      (rates : Map Text Float) (positions : List (EarnPosition Float)) (state : State)
      → Extends (assets_of state.0) (assets_of (add_positions f asset rates positions state).0)
  add_positions-Extends rates [] state = Extends-self (assets_of state.0)
  add_positions-Extends rates (pos ∷ positions) state =
      Extends-trans _ _ _ (add_position-Extends rates pos state)
        (add_positions-Extends rates positions (add_position f asset rates pos state))

  add_categories-Extends :
      (rates : Map Text Float) (responses : List (Option (List (EarnPosition Float))))
      (state : State)
      → Extends (assets_of state.0) (assets_of (add_categories f asset rates responses state).0)
  add_categories-Extends rates [] state = Extends-self (assets_of state.0)
  add_categories-Extends rates (none ∷ responses) state =
      add_categories-Extends rates responses state
  add_categories-Extends rates (some positions ∷ responses) state =
      Extends-trans _ _ _ (add_positions-Extends rates positions state)
        (add_categories-Extends rates responses (add_positions f asset rates positions state))

  assets_of-coins :
      (coins : List (CoinInfo Float))
      → assets_of (map (balance_of f asset) coins) ≡ map (λ r. asset r.coin) coins
  assets_of-coins [] = refl
  assets_of-coins (r ∷ coins) = ap (λ x. asset r.coin ∷ x) (assets_of-coins coins)

  -- Of one account the balances are told, whatever the earn products answer: those of its coins come
  -- first and in their order, and each asset stands among them once if it does among the coins.
  pub balances_inner-Extends :
      (coins : List (CoinInfo Float)) (total_equity : Float)
      (responses : List (Option (List (EarnPosition Float))))
      → (b : Balances Asset Float) × (balances_inner f asset ((coins, total_equity) ∷ []) responses
          ≡ some b)
        × Extends (map (λ r. asset r.coin) coins) (assets_of b.v)
  unfolding balances_inner
  balances_inner-Extends coins total_equity responses =
      let state : State = (map (balance_of f asset) coins, total_equity) in
      let rates = usd_rates f asset coins (λ _. none) in
      (
        balances_from f asset (add_categories f asset rates responses state),
        refl,
        subst
            (λ assets. Extends assets (assets_of (add_categories f asset rates responses state).0))
            (assets_of-coins coins) (add_categories-Extends rates responses state),
      )
