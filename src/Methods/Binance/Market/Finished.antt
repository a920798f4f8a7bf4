-- ===== src/Methods/Binance/Market/Finished.antt =====
-- The candles that Binance's rows give.
use v_exchanges.Prelude.{
  ℕ, ◌+◌, ◌^◌, ◌≡◌, refl, Bool, true, false, ◌&&◌, Option, some, List, [], ◌∷◌, ltb, leb, arith,
  Bool-cases, Option-cases, inl, inr, ◌>>=◌, if◌then◌else◌,
}
use v_exchanges.Methods.Tables.{keep_all}
use v_exchanges.Methods.Candles.{Kline}
use v_exchanges.Methods.Binance.Market.{KlineResponse, candle, finished, kline, klines}

module _ {Time Float : Type 0} (from_millisecond : ℕ → Option Time) where
  -- The clock goes on no faster than the rows do.
  abbrev pub paced : List (ℕ × KlineResponse Float) → Bool
  paced [] = true
  paced (_ ∷ []) = true
  paced ((now, k) ∷ (now', k') ∷ rows) =
      leb (now' + k.open_time) (now + k'.open_time) && paced ((now', k') ∷ rows)

  abbrev pub all_fit : ℕ → List (ℕ × KlineResponse Float) → Bool
  all_fit most [] = true
  all_fit most ((_, k) ∷ rows) = ltb (k.open_time + most) (2 ^ 63) && all_fit most rows

  -- The clock shows more than `most` behind the start of the candle.
  abbrev pub has_ended : ℕ → ℕ × KlineResponse Float → Bool
  has_ended most (now, k) = ltb (k.open_time + most) now

  -- The longest start of the rows that is finished.
  abbrev pub finished_start : ℕ → List (ℕ × KlineResponse Float) → List (ℕ × KlineResponse Float)
  finished_start most [] = []
  finished_start most (row ∷ rows) =
      let rest = finished_start most rows in if has_ended most row then row ∷ rest else []

  abbrev pub candles : List (ℕ × KlineResponse Float) → Option (List (Kline Time Float))
  candles [] = some []
  candles ((_, k) ∷ rows) = from_millisecond k.open_time >>= λ t.
      candles rows >>= λ cs. some (candle from_millisecond t k ∷ cs)

  unfinished-rest :
      (most now : ℕ) (k : KlineResponse Float) (rows : List (ℕ × KlineResponse Float))
      → paced ((now, k) ∷ rows) ≡ true
      → all_fit most rows ≡ true
      → finished from_millisecond most (now, k) ≡ false
      → keep_all (kline from_millisecond most) rows ≡ some []
  unfinished-rest most now k [] p f h = refl
  unfinished-rest most now k ((now', k') ∷ rows) p f h =
      let late : finished from_millisecond most (now', k') ≡ false = ground arith in
      let rest = unfinished-rest most now' k' rows (ground arith) (ground arith) late in
      let fits : ltb (k'.open_time + most) (2 ^ 63) ≡ true = ground arith in
      rw fits (rw late (rw rest refl))

  paced-rest :
      (row : ℕ × KlineResponse Float) (rows : List (ℕ × KlineResponse Float))
      → paced (row ∷ rows) ≡ true
      → paced rows ≡ true
  paced-rest row [] p = refl
  paced-rest (now, k) ((now', k') ∷ rows) p = ground arith

  -- When no time overflows and the clock goes on no faster than the rows, what is skipped is an end of
  -- the rows: the candles are those of the longest start of the rows that is finished, without a gap.
  pub klines-finished_start :
      (most : ℕ) (rows : List (ℕ × KlineResponse Float))
      → paced rows ≡ true
      → all_fit most rows ≡ true
      → klines from_millisecond most rows ≡ candles (finished_start most rows)
  unfolding klines
  klines-finished_start most [] p f = refl
  klines-finished_start most ((now, k) ∷ rows) p f =
      let fits : ltb (k.open_time + most) (2 ^ 63) ≡ true = ground arith in
      elim (Bool-cases (finished from_millisecond most (now, k))) [
        | inr b ↦ rw fits (rw b (rw (unfinished-rest most now k rows p (ground arith) b) refl))
        | inl b ↦ elim (Option-cases (from_millisecond k.open_time)) [
          | inl g ↦ rw fits (rw b (rw g refl))
          | inr (t, g) ↦
              (let ih =
                  klines-finished_start most rows (paced-rest (now, k) rows p) (ground arith) in
                rw fits (rw b (rw g (rw ih refl))))
        ]
      ]
