-- ===== src/Methods/Tables/Collected.antt =====
-- Which value a key has behind a loop.
use v_exchanges.Prelude.{
  ◌≡◌, ◌∙◌, sym, Bool, true, false, not, ◌&&◌, Option, none, some, List, [], ◌∷◌, ◌++◌, Eq, Map,
  insert_self, arith, Bool-cases, inl, inr, refl, Option-cases, if◌then◌else◌,
}
use v_exchanges.Methods.Tables.{put, collect, keep_all, read_into, wanted, offered}

module _ {A K V : Type 0} ⦃e : Eq K⦄ (entry : A → Option (K × V)) where
  -- No element gives something for the key.
  abbrev pub is_for : K → Option (K × V) → Bool
  is_for k none = false
  is_for k (some (j, v)) = e.beq j k

  abbrev pub silent : K → List A → Bool
  silent k [] = true
  silent k (x ∷ xs) = not (is_for k (entry x)) && silent k xs

  put-skip : (k : K) (o : Option (K × V)) (m : Map K V) → is_for k o ≡ false → put o m k ≡ m k
  put-skip k none m h = refl
  put-skip k (some (j, v)) m h = rw h refl

  put-keys :
      (P : K → Bool) (o : Option (K × V)) (m : Map K V)
      → ((k : K) (v : V) → o ≡ some (k, v) → P k ≡ true)
      → ((k : K) (v : V) → m k ≡ some v → P k ≡ true)
      → (k : K) (v : V) → put o m k ≡ some v
      → P k ≡ true
  put-keys P none m given before k v h = before k v h
  put-keys P (some (j, w)) m given before k v h = elim (Bool-cases (e.beq j k)) [
    | inl b ↦ rw (sym ((e.beq_iff j k).0 b)) (given j w refl)
    | inr b ↦ before k v (ground arith)
  ]

  pub collect-silent :
      (k : K) (xs : List A) (m : Map K V) → silent k xs ≡ true → collect entry xs m k ≡ m k
  collect-silent k [] m h = refl
  collect-silent k (x ∷ xs) m h =
      collect-silent k xs (put (entry x) m) (ground arith) ∙ put-skip k (entry x) m (ground arith)

  pub collect-last :
      (k : K) (v : V) (ys : List A) (x : A) (zs : List A) (m : Map K V)
      → entry x ≡ some (k, v)
      → silent k zs ≡ true
      → collect entry (ys ++ x ∷ zs) m k ≡ some v
  collect-last k v [] x zs m f h = collect-silent k zs _ h ∙ rw f (insert_self k v m)
  collect-last k v (y ∷ ys) x zs m f h = collect-last k v ys x zs _ f h

  -- What holds of every element's key and of the keys of the map holds of the keys of the result.
  pub collect-keys :
      (P : K → Bool) (xs : List A) (m : Map K V)
      → ((x : A) (k : K) (v : V) → entry x ≡ some (k, v) → P k ≡ true)
      → ((k : K) (v : V) → m k ≡ some v → P k ≡ true)
      → (k : K) (v : V) → collect entry xs m k ≡ some v
      → P k ≡ true
  collect-keys P [] m given before k v h = before k v h
  collect-keys P (x ∷ xs) m given before k v h =
      collect-keys P xs _ given (put-keys P (entry x) m (given x) before) k v h

module _ {K V : Type 0} ⦃e : Eq K⦄ where
  -- The value of the last entry of a key, or else another.
  abbrev pub last_of : K → List (K × V) → Option V → Option V
  last_of k [] o = o
  last_of k ((j, v) ∷ entries) o = last_of k entries (if e.beq j k then some v else o)

module _ {A K V : Type 0} ⦃e : Eq K⦄ where
  -- What is read into a map is for each key the value of its last entry, or else what stood there.
  pub read_into-last_of :
      (entry : A → Option (Option (K × V))) (xs : List A) (entries : List (K × V)) (m : Map K V)
      → keep_all entry xs ≡ some entries
      → (m' : Map K V) × (read_into entry xs m ≡ some m')
        × ((k : K) → m' k ≡ last_of k entries (m k))
  read_into-last_of entry [] entries m h =
      let same : [] ≡ entries = ground arith in (m, refl, λ k. rw (sym same) refl)
  read_into-last_of entry (x ∷ xs) entries m h = elim (Option-cases (entry x)) [
    | inl f ↦ absurd (ground arith)
    | inr (none, f) ↦ elim (Option-cases (keep_all entry xs)) [
      | inl g ↦ absurd (ground arith)
      | inr (rest, g) ↦
          (let (m', run, at) = read_into-last_of entry xs rest m g in
            let same : rest ≡ entries = ground arith in
            (m', rw f run, λ k. at k ∙ rw (sym same) refl))
    ]
    | inr (some (j, v), f) ↦ elim (Option-cases (keep_all entry xs)) [
      | inl g ↦ absurd (ground arith)
      | inr (rest, g) ↦
          (let (m', run, at) = read_into-last_of entry xs rest (put (some (j, v)) m) g in
            let same : (j, v) ∷ rest ≡ entries = ground arith in
            (m', rw f run, λ k. at k ∙ rw (sym same) refl))
    ]
  ]

pub offered-wanted :
    {Pair V : Type 0} ⦃e : Eq Pair⦄ (asked : Option (List Pair)) (p k : Pair) (v w : V)
    → offered asked p v ≡ some (k, w)
    → wanted asked k ≡ true
offered-wanted asked p k v w h = ground arith
