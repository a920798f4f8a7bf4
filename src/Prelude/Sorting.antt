-- ===== src/Prelude/Sorting.antt =====
-- Insertion sort on a total order. It does not depend on the order of its input, so any other sort
-- gives the same list.
use mathlib.Core.Path.{◌≡◌, refl, ap, sym, ◌∙◌}
use mathlib.Core.Logic.{inl, inr}
use mathlib.Core.Bool.{true}
use mathlib.Core.List.{List, [], ◌∷◌, Perm, foldr}
use mathlib.Core.List.Perm
use native.Mathlib.Omega.{arith}
use v_exchanges.Prelude.Tests.{Bool-cases, if◌then◌else◌}
use v_exchanges.Prelude.Orders.{Ord}

module _ {A : Type 0} ⦃o : Ord A⦄ where
  abbrev pub insert_sorted : A → List A → List A
  insert_sorted x [] = x ∷ []
  insert_sorted x (y ∷ ys) =
      let rest = insert_sorted x ys in if o.le x y then x ∷ y ∷ ys else y ∷ rest

  abbrev pub sort : List A → List A
  sort [] = []
  sort (x ∷ xs) = insert_sorted x (sort xs)

  abbrev pub IsSorted : List A → Type 0
  IsSorted [] = Unit
  IsSorted (x ∷ []) = Unit
  IsSorted (x ∷ y ∷ ys) = (o.le x y ≡ true) × IsSorted (y ∷ ys)

  insert_sorted-IsSorted : (x : A) (l : List A) → IsSorted l → IsSorted (insert_sorted x l)
  insert_sorted-IsSorted x [] s = tt
  insert_sorted-IsSorted x (y ∷ []) s = ground (arith, o.total x y)
  insert_sorted-IsSorted x (y ∷ z ∷ ys) (p, s) =
      ground (arith, o.total x y, insert_sorted-IsSorted x (z ∷ ys) s)

  pub sort-IsSorted : (l : List A) → IsSorted (sort l)
  sort-IsSorted [] = tt
  sort-IsSorted (x ∷ xs) = insert_sorted-IsSorted x (sort xs) (sort-IsSorted xs)

  insert_sorted_comm :
      (x y : A) (l : List A)
      → insert_sorted x (insert_sorted y l) ≡ insert_sorted y (insert_sorted x l)
  insert_sorted_comm x y [] = ground (arith, o.total x y, o.antisymm x y)
  insert_sorted_comm x y (z ∷ l) =
      ground
        (arith, o.total x y, o.antisymm x y, o.trans x y z, o.trans y x z, insert_sorted_comm x y l)

  sort-foldr : (l : List A) → sort l ≡ foldr insert_sorted [] l
  sort-foldr [] = refl
  sort-foldr (x ∷ xs) = ap (insert_sorted x) (sort-foldr xs)

  -- Lists with the same elements sort to the same list.
  pub sort_perm : {l r : List A} → IsSet A → Perm l r → sort l ≡ sort r
  sort_perm {l} {r} set p =
      sort-foldr l
      ∙ Perm.foldr-eq {B = List A} (hlevel) insert_sorted insert_sorted_comm p []
      ∙ sym (sort-foldr r)

  insert_sorted-perm : (x : A) (l : List A) → Perm (insert_sorted x l) (x ∷ l)
  insert_sorted-perm x [] = Perm.rfl
  insert_sorted-perm x (y ∷ ys) = elim (Bool-cases (o.le x y)) [
    | inl e ↦ rw e Perm.rfl
    | inr e ↦ rw e (Perm.trans (Perm.cons y (insert_sorted-perm x ys)) (Perm.swap x y ys))
  ]

  pub sort-perm : (l : List A) → Perm (sort l) l
  sort-perm [] = Perm.rfl
  sort-perm (x ∷ xs) = Perm.trans (insert_sorted-perm x (sort xs)) (Perm.cons x (sort-perm xs))
