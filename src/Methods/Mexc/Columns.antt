-- ===== src/Methods/Mexc/Columns.antt =====
-- The candles of MEXC, whose response has a list for each field.
use v_exchanges.Prelude.{
  ℕ, ℤ, zero, suc, ◌+◌, ◌≡◌, ap, refl, Option, none, some, List, [], ◌∷◌, map, Text, Result, ok,
  err, get_elem?, arith, Result-cases, inl, inr,
}
use mathlib.Core.Path.{subst}
use v_exchanges.Methods.Candles.{Kline}
use v_exchanges.Methods.Mexc.{KlineData, klines, klines_from}

pub record Row (Float : Type 0) : Type 0 where
  pub time : ℤ
  pub open_ : Float
  pub close : Float
  pub high : Float
  pub low : Float
  pub amount : Float

map_some {ℓ} : {A B : Type ℓ} → (A → B) → Option A → Option B
map_some f none = none
map_some f (some a) = some (f a)

get_elem?-map {ℓ} :
    {A B : Type ℓ} (f : A → B) (xs : List A) (x : A) (i : ℕ)
    → get_elem? xs i ≡ some x
    → get_elem? (map f xs) i ≡ some (f x)
get_elem?-map f [] x i h = absurd (ground arith)
get_elem?-map f (y ∷ xs) x zero h = ground arith
get_elem?-map f (y ∷ xs) x (suc i) h = get_elem?-map f xs x i h

zero_behind : (i : ℕ) → i + zero ≡ i
zero_behind i = omega arith

zero_before : (j : ℕ) → 0 + j ≡ j
zero_before j = omega arith

one_between : (i j : ℕ) → i + suc j ≡ i + 1 + j
one_between i j = omega arith

module _ {Time Float : Type 0} (from_second : ℤ → Result Text Time) where
  abbrev pub columns : List (Row Float) → KlineData Float
  columns rows = record {
    time = map (λ r. r.time) rows;
    open_ = map (λ r. r.open_) rows;
    close = map (λ r. r.close) rows;
    high = map (λ r. r.high) rows;
    low = map (λ r. r.low) rows;
    amount = map (λ r. r.amount) rows;
  }

  abbrev pub candle_of : Time → Row Float → Kline Time Float
  candle_of t r = record {
    open_time = t;
    open_ = r.open_;
    high = r.high;
    low = r.low;
    close = r.close;
    volume_quote = r.amount;
    trades = none;
    taker_buy_volume_quote = none;
  }

  -- The candles of some rows, or the error of the first time that is none.
  abbrev pub row_candles : List (Row Float) → Result Text (List (Kline Time Float))
  row_candles [] = ok []
  row_candles (r ∷ rows) = elim (from_second r.time) [
    | err e ↦ err e
    | ok t ↦ elim (row_candles rows) [ err e ↦ err e | ok ks ↦ ok (candle_of t r ∷ ks) ]
  ]

  from_rows :
      (all rows : List (Row Float)) (i : ℕ)
      → ((j : ℕ) → get_elem? all (i + j) ≡ get_elem? rows j)
      → klines_from from_second (columns all) i (map (λ r. r.time) rows) ≡ some (row_candles rows)
  from_rows all [] i h = refl
  from_rows all (r ∷ rows) i h =
      let here : get_elem? all i ≡ some r =
        subst (λ k. get_elem? all k ≡ some r) (zero_behind i) (h zero) in
      let rest : (j : ℕ) → get_elem? all (i + 1 + j) ≡ get_elem? rows j =
        λ j. subst (λ k. get_elem? all k ≡ get_elem? rows j) (one_between i j) (h (suc j)) in
      rw
        (
          get_elem?-map (λ r. r.open_) all r i here,
          get_elem?-map (λ r. r.high) all r i here,
          get_elem?-map (λ r. r.low) all r i here,
          get_elem?-map (λ r. r.close) all r i here,
        )
        (elim (Result-cases (from_second r.time)) [
          | inr (x, f) ↦ rw f (ground arith)
          | inl (t, f) ↦ rw f (
              rw (get_elem?-map (λ r. r.amount) all r i here) (
                rw (from_rows all rows (i + 1) rest) (elim (Result-cases (row_candles rows)) [
                  | inr (x, g) ↦ rw g (ground arith)
                  | inl (ks, g) ↦ rw g (ground arith)
                ])))
        ])

  -- Columns of one length are read as the rows they stand for: without a panic, as their candles in
  -- order, or as the error of the first time that is none.
  pub klines-columns :
      (rows : List (Row Float)) → klines from_second (columns rows) ≡ some (row_candles rows)
  unfolding klines
  klines-columns rows = from_rows rows rows 0 (λ j. ap (get_elem? rows) (zero_before j))
