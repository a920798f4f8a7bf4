-- ===== src/Methods/Kucoin/Klines/Ascending.antt =====
-- In which order the candles come.
use v_exchanges.Prelude.{
  ◌≡◌, ◌∙◌, sym, ap, refl, Option, some, List, [], ◌∷◌, map, Result, ok, Text, arith,
}
use mathlib.Core.List.{reverse}
use mathlib.Mathlib.Data.List.Basic.{map-reverse_aux}
use v_exchanges.Methods.Kucoin.Klines.{
  Kline, Libraries, read, spot_kline, futures_kline, klines, futures_klines,
}

abbrev taken : {E A : Type 0} → A → Option (Result E A)
taken a = some (ok a)

-- A loop over rows that all give something gives all of it, in order.
read-map :
    {Row E A : Type 0} (f : Row → Option (Result E A)) (rows : List Row) (ks : List A)
    → map f rows ≡ map taken ks
    → read f rows ≡ ok ks
read-map f [] [] h = refl
read-map f [] (k ∷ ks) h = cc
read-map f (row ∷ rows) [] h = cc
read-map f (row ∷ rows) (k ∷ ks) h = ground (arith, read-map f rows ks)

module _ {Time Float : Type 0} (lib : Libraries Time Float) where
  -- When every row of a response of the spot market is a candle, the candles are those of the rows
  -- in reverse; those of futures stay in order.
  pub klines-reversed :
      (rows : List (List Text)) (futures_rows : List (List Float))
      (ks futures_ks : List (Kline Time Float))
      → map (spot_kline lib) rows ≡ map taken ks
      → map (futures_kline lib) futures_rows ≡ map taken futures_ks
      → (klines lib rows ≡ ok (reverse ks)) × (futures_klines lib futures_rows ≡ ok futures_ks)
  unfolding klines futures_klines
  klines-reversed rows futures_rows ks futures_ks h g = (
    read-map _ (reverse rows) (reverse ks) (
        map-reverse_aux (spot_kline lib) rows []
        ∙ ap reverse h
        ∙ sym (map-reverse_aux taken ks [])),
    read-map _ futures_rows futures_ks g,
  )
