-- ===== src/Methods/Binance/Futures/Preferred.antt =====
-- Which contract stands for a pair in the listing of Binance's futures.
use v_exchanges.Prelude.{
  ℤ, ◌≡◌, ◌∙◌, ap, refl, sym, Bool, true, false, not, Option, none, some, List, [], ◌∷◌, codes,
  text_beq, Eq, Map, is_none, arith, Option-cases, Bool-cases, inl, inr, ◌>>=◌, if◌then◌else◌, ◌&&◌,
}
use v_exchanges.Methods.Info.{PairInfo, ExchangeInfo}
use v_exchanges.Methods.Binance.Futures.{
  FuturesSymbol, BinanceExchangeFutures, Libraries, info_of, enter, listed, exchange_info,
}

abbrev pub or_else : Option PairInfo → Option PairInfo → Option PairInfo
or_else none o = o
or_else (some info) o = some info

abbrev pub is_perpetual : PairInfo → Bool
is_perpetual info = is_none info.delivery_date

-- What stands for a pair behind one more contract of it.
abbrev entered : PairInfo → Option PairInfo → Option PairInfo
entered info none = some info
entered info (some old) =
    if not (is_perpetual old) && is_perpetual info then some info else some old

module _ {Pair : Type 0} ⦃e : Eq Pair⦄ where
  -- The first contract of a pair that passes a test.
  abbrev pub first : (PairInfo → Bool) → Pair → List (Pair × PairInfo) → Option PairInfo
  first test p [] = none
  first test p ((q, info) ∷ contracts) =
      let rest = first test p contracts in if e.beq q p && test info then some info else rest

  -- The first perpetual of the pair, or else its first contract.
  abbrev pub preferred : Pair → List (Pair × PairInfo) → Option PairInfo
  preferred p contracts = or_else (first is_perpetual p contracts) (first (λ _. true) p contracts)

  -- What is preferred when something may stand there already.
  abbrev over : Option PairInfo → Pair → List (Pair × PairInfo) → Option PairInfo
  over none p contracts = preferred p contracts
  over (some old) p contracts =
      let later = or_else (first is_perpetual p contracts) (some old) in
      if is_perpetual old then some old else later

module _ {Pair : Type 0} ⦃e : Eq Pair⦄ where
  over-found :
      (q p : Pair) (info : PairInfo) (o : Option PairInfo) (contracts : List (Pair × PairInfo))
      → e.beq q p ≡ true
      → over (entered info o) p contracts ≡ over o p ((q, info) ∷ contracts)
  over-found q p info none contracts b = ground arith
  over-found q p info (some old) contracts b = ground arith

  over-skipped :
      (q p : Pair) (info : PairInfo) (o : Option PairInfo) (contracts : List (Pair × PairInfo))
      → e.beq q p ≡ false
      → over o p contracts ≡ over o p ((q, info) ∷ contracts)
  over-skipped q p info none contracts b = ground arith
  over-skipped q p info (some old) contracts b = ground arith

  over-nil : (p : Pair) (o : Option PairInfo) → o ≡ over o p []
  over-nil p none = refl
  over-nil p (some old) = ground arith

  enter-entered :
      (q p : Pair) (info : PairInfo) (m : Map Pair PairInfo)
      → enter q info m p ≡ (if e.beq q p then entered info (m p) else m p)
  enter-entered q p info m = elim (Option-cases (m q)) [
    | inl f ↦ ground (arith, e.beq_iff q p)
    | inr (old, f) ↦ ground (arith, e.beq_iff q p)
  ]

  enter-over :
      (q p : Pair) (info : PairInfo) (m : Map Pair PairInfo) (contracts : List (Pair × PairInfo))
      → over (enter q info m p) p contracts ≡ over (m p) p ((q, info) ∷ contracts)
  enter-over q p info m contracts =
      ap (λ o. over o p contracts) (enter-entered q p info m) ∙ elim (Bool-cases (e.beq q p)) [
        | inl b ↦ rw b (over-found q p info (m p) contracts b)
        | inr b ↦ rw b (over-skipped q p info (m p) contracts b)
      ]

module _ {Pair : Type 0} ⦃e : Eq Pair⦄ (lib : Libraries Pair) where
  open lib use {pair}

  -- The contracts that trade, in the order of the response.
  abbrev pub trading : List FuturesSymbol → Option (List (Pair × PairInfo))
  trading [] = some []
  trading (s ∷ symbols) =
      if not (text_beq s.status (codes "TRADING"))
      then trading symbols
      else (info_of lib s >>= λ info.
          trading symbols >>= λ rest. some ((pair s.base_asset s.quote_asset, info) ∷ rest))

  listed-over :
      (symbols : List FuturesSymbol) (contracts : List (Pair × PairInfo)) (m : Map Pair PairInfo)
      → trading symbols ≡ some contracts
      → (m' : Map Pair PairInfo) × (listed lib symbols m ≡ some m')
        × ((p : Pair) → m' p ≡ over (m p) p contracts)
  listed-over [] contracts m h =
      let same : [] ≡ contracts = ground arith in (m, refl, λ p. rw (sym same) (over-nil p (m p)))
  listed-over (s ∷ symbols) contracts m h =
      elim (Bool-cases (text_beq s.status (codes "TRADING"))) [
        | inr b ↦
            (let (m', run, at) = listed-over symbols contracts m (ground arith) in
              (m', rw b run, at))
        | inl b ↦ elim (Option-cases (info_of lib s)) [
          | inl f ↦ absurd (ground arith)
          | inr (info, f) ↦ elim (Option-cases (trading symbols)) [
            | inl g ↦ absurd (ground arith)
            | inr (rest, g) ↦
                (let q = pair s.base_asset s.quote_asset in
                  let same : (q, info) ∷ rest ≡ contracts = ground arith in
                  let (m', run, at) = listed-over symbols rest (enter q info m) g in
                  (m', rw b (rw f run), λ p. at p ∙ rw (sym same) (enter-over q p info m rest)))
          ]
        ]
      ]

  -- When the server's time and every trading contract have a date, the listing is made without a
  -- panic, and a pair stands in it for the first perpetual among its trading contracts, or else for
  -- the first of these, and not at all if there is none.
  pub exchange_info-preferred :
      (v : BinanceExchangeFutures) (time : ℤ) (contracts : List (Pair × PairInfo))
      → lib.from_millisecond v.server_time ≡ some time
      → trading v.symbols ≡ some contracts
      → (info : ExchangeInfo Pair) × (exchange_info lib v ≡ some info)
        × (info.server_time ≡ time)
        × ((p : Pair) → info.pairs p ≡ preferred p contracts)
  unfolding exchange_info
  exchange_info-preferred v time contracts h g =
      let (m, run, at) = listed-over v.symbols contracts (λ _. none) g in
      (record { server_time = time; pairs = m }, rw h (rw run refl), refl, at)
