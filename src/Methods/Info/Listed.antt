-- ===== src/Methods/Info/Listed.antt =====
-- Which precisions a stream is opened with.
use v_exchanges.Prelude.{
  ◌≡◌, sym, Bool, true, false, Option, none, some, List, [], ◌∷◌, ok, Map, Eq, insert, arith,
  Option-cases, Result-cases, inl, inr, if◌then◌else◌, ap,
}
use v_exchanges.Methods.Trades.{PrecisionPriceQty}
use v_exchanges.Methods.Info.{Instrument, PairInfo, MethodError, precision, pair_precisions}

abbrev pub precision? : Option PairInfo → Option PrecisionPriceQty
precision? none = none
precision? (some info) = some (precision info)

module _ {Pair E : Type 0} ⦃e : Eq Pair⦄ (of_method : MethodError Pair → E)
    (instrument : Instrument) (infos : Map Pair PairInfo) where
  abbrev pub is_in : Pair → List Pair → Bool
  is_in p [] = false
  is_in p (q ∷ qs) = if e.beq q p then true else is_in p qs

  -- Precisions that are found are those of the listing, for the pairs that were asked for and for no
  -- other; and each of these is listed.
  pub pair_precisions-listed :
      (pairs : List Pair) (m : Map Pair PrecisionPriceQty)
      → pair_precisions of_method instrument infos pairs ≡ ok m
      → (p : Pair) → (m p ≡ (if is_in p pairs then precision? (infos p) else none))
  unfolding pair_precisions
  pair_precisions-listed [] m h p =
      let unlisted : Map Pair PrecisionPriceQty = λ _. none in
      let same : unlisted ≡ m = cc in ap (λ n. n p) (sym same)
  pair_precisions-listed (q ∷ pairs) m h p = elim (Option-cases (infos q)) [
    | inl f ↦ ground arith
    | inr (info, f) ↦ elim (Result-cases (pair_precisions of_method instrument infos pairs)) [
      | inr (x, g) ↦ ground arith
      | inl (rest, g) ↦
          (let same : insert q (precision info) rest ≡ m = ground arith in
            ground
              (arith, ap (λ n. n p) same, pair_precisions-listed pairs rest g p, e.beq_iff q p))
    ]
  ]
