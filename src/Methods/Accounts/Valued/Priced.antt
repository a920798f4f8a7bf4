-- ===== src/Methods/Accounts/Valued/Priced.antt =====
-- When the balances of Binance's futures can be told.
use v_exchanges.Prelude.{
  ◌≡◌, sym, refl, Bool, true, false, not, ◌||◌, ◌&&◌, some, List, [], ◌∷◌, Text, codes, Map, Eq,
  Result, ok, err, is_none, arith, Option-cases, Result-cases, Bool-cases, inl, inr,
}
use v_exchanges.Methods.Accounts.{Arithmetic, AssetBalance, Balances}
use v_exchanges.Methods.Accounts.Valued.{Assets, named, perp_usd, perp_all, non_zero, perp_balances}

module _ {Asset Pair Float : Type 0} ⦃e : Eq Asset⦄ (f : Arithmetic Float)
    (lib : Assets Asset Pair) where
  -- Every asset with a balance is USDT or has a price.
  abbrev pub all_priced : Map Pair Float → List (Text × Float) → Bool
  all_priced prices [] = true
  all_priced prices ((name, underlying) ∷ rows) =
      (f.is_zero underlying
        || named f lib (codes "USDT") (lib.asset name)
        || not (is_none (prices (lib.usdt_pair (lib.asset name)))))
      && all_priced prices rows

  abbrev pub is_ok : {A : Type 0} → Result Text A → Bool
  is_ok (ok _) = true
  is_ok (err _) = false

  -- No balance of zero is listed, and every balance has a value.
  abbrev pub all_told : List (AssetBalance Asset Float) → Bool
  all_told [] = true
  all_told (b ∷ balances) = not (f.is_zero b.underlying) && not (is_none b.usd) && all_told balances

  perp_all-ok :
      (prices : Map Pair Float) (rows : List (Text × Float))
      → is_ok (perp_all f lib prices rows) ≡ all_priced prices rows
  perp_all-ok prices [] = refl
  perp_all-ok prices ((name, underlying) ∷ rows) =
      let ih = perp_all-ok prices rows in
      elim (Option-cases (prices (lib.usdt_pair (lib.asset name)))) [
        | inl g ↦ elim (Result-cases (perp_all f lib prices rows)) [
          | inl (bs, k) ↦ ground arith
          | inr (x, k) ↦ ground arith
        ]
        | inr (p, g) ↦ elim (Result-cases (perp_all f lib prices rows)) [
          | inl (bs, k) ↦ ground arith
          | inr (x, k) ↦ ground arith
        ]
      ]

  perp_all-told :
      (prices : Map Pair Float) (rows : List (Text × Float))
      (balances : List (AssetBalance Asset Float))
      → perp_all f lib prices rows ≡ ok balances
      → all_told (non_zero f lib balances) ≡ true
  perp_all-told prices [] balances h = let same : [] ≡ balances = ground arith in rw (sym same) refl
  perp_all-told prices ((name, underlying) ∷ rows) balances h =
      elim (Result-cases (perp_usd f lib prices (lib.asset name) underlying)) [
        | inr (x, g) ↦ absurd (ground arith)
        | inl (usd, g) ↦ elim (Result-cases (perp_all f lib prices rows)) [
          | inr (x, k) ↦ absurd (ground arith)
          | inl (rest, k) ↦
              (let ih = perp_all-told prices rows rest k in
                let same : record {
                  asset = lib.asset name;
                  underlying = underlying;
                  usd = some usd;
                }
                      ∷ rest
                    ≡ balances =
                  ground arith in
                rw (sym same) (elim (Bool-cases (f.is_zero underlying)) [
                  | inl z ↦ rw z ih
                  | inr z ↦ rw z (ground arith)
                ]))
        ]
      ]

  -- The balances of Binance's futures are told exactly when every asset with a balance is USDT or has
  -- a price, and then none of zero is among them and each has a value.
  pub perp_balances-told :
      (prices : Map Pair Float) (rows : List (Text × Float))
      → (is_ok (perp_balances f lib prices rows) ≡ all_priced prices rows)
        × ((b : Balances Asset Float)
            → perp_balances f lib prices rows ≡ ok b
            → all_told b.v ≡ true)
  unfolding perp_balances
  perp_balances-told prices rows = elim (Result-cases (perp_all f lib prices rows)) [
    | inr (x, g) ↦ (ground (arith, perp_all-ok prices rows), λ b h. absurd (ground arith))
    | inl (balances, g) ↦ (
      ground (arith, perp_all-ok prices rows),
      λ b h. (let told = perp_all-told prices rows balances g in ground arith),
    )
  ]
