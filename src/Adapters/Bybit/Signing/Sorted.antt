-- ===== src/Adapters/Bybit/Signing/Sorted.antt =====
-- The text that the older versions of the API sign: all parameters, in ascending order.
use v_exchanges.Prelude.{
  lacks, lacks-append, split-lacks, split-append, ℕ, Bool, true, ◌≡◌, ◌≢◌, refl, sym, ap, List, [],
  ◌∷◌, ◌++◌, Text, codes, ◌&&◌, sort, pair_ord, split, map, IsSorted, sort-IsSorted, sort-perm,
  sort_perm, insert_sorted, Bool-cases, inl, inr, arith,
}
use mathlib.Core.List.{Perm, append-nil}
use mathlib.Core.List.Perm
use v_exchanges.Adapters.Bybit.Signing.{
  Libraries, ampersand, equals, split_pair, segment, push_all, pop, sort_and_add,
}

-- A parameter whose name has neither separator, and whose value has no "&".
abbrev pub is_clean : Text × Text → Bool
is_clean (key, value) = lacks ampersand key && (lacks equals key && lacks ampersand value)

segment-lacks : (p : Text × Text) → is_clean p ≡ true → lacks ampersand (segment p) ≡ true
segment-lacks (key, []) h = ground arith
segment-lacks (key, c ∷ value) h = ground (arith, lacks-append ampersand key (equals ∷ c ∷ value))

split_pair-append : (s t : Text) → lacks equals s ≡ true → split_pair (s ++ equals ∷ t) ≡ (s, t)
split_pair-append [] t h = refl
split_pair-append (c ∷ s) t h = ground (arith, split_pair-append s t)

split_pair-lacks : (s : Text) → lacks equals s ≡ true → split_pair s ≡ (s, [])
split_pair-lacks [] h = refl
split_pair-lacks (c ∷ s) h = ground (arith, split_pair-lacks s)

split_pair-segment : (p : Text × Text) → is_clean p ≡ true → split_pair (segment p) ≡ p
split_pair-segment (key, []) h = split_pair-lacks key (ground arith)
split_pair-segment (key, c ∷ value) h = split_pair-append key (c ∷ value) (ground arith)

pop-append : (s t : Text) (c : ℕ) → pop (s ++ c ∷ t) ≡ s ++ pop (c ∷ t)
pop-append [] t c = refl
pop-append (d ∷ []) t c = refl
pop-append (d ∷ e ∷ s) t c = ap (◌∷◌ d) (pop-append (e ∷ s) t c)

-- Every parameter of a list is clean.
abbrev pub AreClean : List (Text × Text) → Type 0
AreClean [] = Unit
AreClean (p ∷ pairs) = (is_clean p ≡ true) × AreClean pairs

insert_sorted-AreClean :
    (p : Text × Text) (pairs : List (Text × Text))
    → is_clean p ≡ true
    → AreClean pairs
    → AreClean (insert_sorted p pairs)
insert_sorted-AreClean p [] c d = (c, tt)
insert_sorted-AreClean p (q ∷ pairs) c (e, d) = elim (Bool-cases (pair_ord.le p q)) [
  | inl h ↦ rw h (c, (e, d))
  | inr h ↦ rw h (e, insert_sorted-AreClean p pairs c d)
]

sort-AreClean : (pairs : List (Text × Text)) → AreClean pairs → AreClean (sort pairs)
sort-AreClean [] d = tt
sort-AreClean (p ∷ pairs) (c, d) = insert_sorted-AreClean p (sort pairs) c (sort-AreClean pairs d)

pop-cons : (c d : ℕ) (s t : Text) → pop (c ∷ (s ++ d ∷ t)) ≡ c ∷ pop (s ++ d ∷ t)
pop-cons c d [] t = refl
pop-cons c d (e ∷ s) t = refl

split-push_all :
    (p : Text × Text) (ps : List (Text × Text))
    → AreClean (p ∷ ps)
    → map split_pair (split ampersand (pop (push_all (p ∷ ps)))) ≡ p ∷ ps
split-push_all p [] (c, clean) =
    rw
      (
        pop-append (segment p) [] ampersand,
        append-nil (segment p),
        split-lacks ampersand (segment p) (segment-lacks p c),
        split_pair-segment p c,
      )
      refl
split-push_all p (q ∷ ps) (c, clean) =
    rw
      (
        pop-append (segment p) (push_all (q ∷ ps)) ampersand,
        pop-cons ampersand ampersand (segment q) (push_all ps),
        split-append ampersand (segment p) (pop (push_all (q ∷ ps))) (segment-lacks p c),
        split_pair-segment p c,
      )
      (ap (◌∷◌ p) (split-push_all q ps clean))

split-joined :
    (pairs : List (Text × Text))
    → AreClean pairs
    → pairs ≢ []
    → map split_pair (split ampersand (pop (push_all pairs))) ≡ pairs
split-joined [] clean n = absurd (n refl)
split-joined (p ∷ ps) clean n = split-push_all p ps clean

module _ (lib : Libraries) where
  -- The parameters of a request with the key and the time, in the order they are given.
  abbrev pub all_pairs : List (Text × Text) → Text → ℕ → List (Text × Text)
  all_pairs pairs key timestamp =
      pairs ++ (codes "api_key", key) ∷ (codes "timestamp", lib.to_text timestamp) ∷ []

  all_pairs-ne-nil :
      (pairs : List (Text × Text)) (key : Text) (timestamp : ℕ) → all_pairs pairs key timestamp ≢ []
  all_pairs-ne-nil [] key timestamp = cc
  all_pairs-ne-nil (p ∷ ps) key timestamp = cc

  -- If no name has a "&" or a "=", and no value a "&", the text that is signed reads back as all
  -- parameters with the key and the time, each once, in ascending order.
  pub sort_and_add-reads :
      (pairs : List (Text × Text)) (key : Text) (timestamp : ℕ)
      → AreClean (all_pairs pairs key timestamp)
      → let read = map split_pair (split ampersand (sort_and_add lib pairs key timestamp)) in
        IsSorted read × Perm read (all_pairs pairs key timestamp)
  unfolding sort_and_add
  sort_and_add-reads pairs key timestamp clean =
      let given = all_pairs pairs key timestamp in
      let reads = split-joined (sort given) (sort-AreClean given clean) (λ e.
        all_pairs-ne-nil pairs key timestamp (sym (Perm.nil-eq (rw e at (sort-perm given))))) in
      rw reads (sort-IsSorted given, sort-perm given)

  -- The text does not depend on the order of the parameters.
  pub sort_and_add-Perm :
      (pairs pairs' : List (Text × Text)) (key : Text) (timestamp : ℕ)
      → Perm pairs pairs'
      → sort_and_add lib pairs key timestamp ≡ sort_and_add lib pairs' key timestamp
  unfolding sort_and_add
  sort_and_add-Perm pairs pairs' key timestamp p =
      ap (λ s. pop (push_all s)) (sort_perm (hlevel) (Perm.append_right _ p))
