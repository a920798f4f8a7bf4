-- ===== src/Prelude/Orders.antt =====
-- Total orders by a Boolean test, the lexicographic orders of pairs and texts, and insertion sort.
use mathlib.Core.Path.{◌≡◌, refl}
use mathlib.Core.Logic.{◌⊎◌, inl, inr}
use mathlib.Core.Bool.{Bool, true, false}
use mathlib.Core.List.{[], ◌∷◌}
use native.Mathlib.Omega.{arith}
use v_exchanges.Prelude.Tests.{◌==◌, ltb, if◌then◌else◌}
use v_exchanges.Prelude.Texts.{Text, text_beq, text_eq}

pub record Ord (A : Type 0) : Type 0 where
  pub le : A → A → Bool
  pub total : (a b : A) → (le a b ≡ true) ⊎ (le b a ≡ true)
  pub trans : (a b c : A) → le a b ≡ true → le b c ≡ true → le a c ≡ true
  pub antisymm : (a b : A) → le a b ≡ true → le b a ≡ true → a ≡ b

abbrev pub text_le : Text → Text → Bool
text_le [] t = true
text_le (a ∷ s) [] = false
text_le (a ∷ s) (b ∷ t) = if a == b then text_le s t else ltb a b

pub text_le-total : (s t : Text) → (text_le s t ≡ true) ⊎ (text_le t s ≡ true)
text_le-total [] t = inl refl
text_le-total (a ∷ s) [] = inr refl
text_le-total (a ∷ s) (b ∷ t) = ground (arith, text_le-total s t)

pub text_le_trans : (s t u : Text) → text_le s t ≡ true → text_le t u ≡ true → text_le s u ≡ true
text_le_trans [] t u p q = refl
text_le_trans (a ∷ s) [] u p q = cc
text_le_trans (a ∷ s) (b ∷ t) [] p q = cc
text_le_trans (a ∷ s) (b ∷ t) (c ∷ u) p q = ground (arith, text_le_trans s t u)

pub text_le_antisymm : (s t : Text) → text_le s t ≡ true → text_le t s ≡ true → s ≡ t
text_le_antisymm [] [] p q = refl
text_le_antisymm [] (b ∷ t) p q = cc
text_le_antisymm (a ∷ s) [] p q = cc
text_le_antisymm (a ∷ s) (b ∷ t) p q = ground (arith, text_le_antisymm s t)

-- Bytes in UTF-8 compare like code points.
instance abbrev pub text_ord : Ord Text
text_ord = record {
  le = text_le;
  total = text_le-total;
  trans = text_le_trans;
  antisymm = text_le_antisymm;
}

-- A pair by its first part, then by its second.
abbrev pub pair_le : Text × Text → Text × Text → Bool
pair_le (a, x) (b, y) = if text_beq a b then text_le x y else text_le a b

pub pair_le-total : (p q : Text × Text) → (pair_le p q ≡ true) ⊎ (pair_le q p ≡ true)
pair_le-total (a, x) (b, y) =
    ground (arith, text_le-total x y, text_le-total a b, text_eq.beq_iff a b, text_eq.beq_iff b a)

pub pair_le_trans :
    (p q r : Text × Text) → pair_le p q ≡ true → pair_le q r ≡ true → pair_le p r ≡ true
pair_le_trans (a, x) (b, y) (c, z) p q = ground (
  arith,
  text_le_trans x y z,
  text_le_trans a b c,
  text_le_antisymm a b,
  text_eq.beq_iff a b,
  text_eq.beq_iff b c,
  text_eq.beq_iff a c,
)

pub pair_le_antisymm : (p q : Text × Text) → pair_le p q ≡ true → pair_le q p ≡ true → p ≡ q
pair_le_antisymm (a, x) (b, y) p q =
    ground
      (arith, text_le_antisymm x y, text_le_antisymm a b, text_eq.beq_iff a b, text_eq.beq_iff b a)

instance abbrev pub pair_ord : Ord (Text × Text)
pair_ord = record {
  le = pair_le;
  total = pair_le-total;
  trans = pair_le_trans;
  antisymm = pair_le_antisymm;
}
