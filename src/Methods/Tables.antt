-- ===== src/Methods/Tables.antt =====
-- What the loops of v_exchanges_methods/src over listed responses share: maps filled in order, the
-- pairs that are asked for, and the number of digits behind a dot.
pub mod Collected
use v_exchanges.Prelude.{
  ℕ, ◌%◌, Bool, true, false, Option, none, some, List, [], ◌∷◌, Text, Eq, Map, insert, length,
  if◌then◌else◌, ◌==◌, ◌>>=◌,
}

abbrev pub put : {K V : Type 0} ⦃e : Eq K⦄ → Option (K × V) → Map K V → Map K V
put none m = m
put (some (k, v)) m = insert k v m

-- A loop that puts what each element gives into a map.
abbrev pub collect : {A K V : Type 0} ⦃e : Eq K⦄ → (A → Option (K × V)) → List A → Map K V → Map K V
collect entry [] m = m
collect entry (x ∷ xs) m = collect entry xs (put (entry x) m)

abbrev pub wanted : {Pair : Type 0} ⦃e : Eq Pair⦄ → Option (List Pair) → Pair → Bool
wanted none p = true
wanted (some []) p = false
wanted ⦃e⦄ (some (q ∷ qs)) p = let rest = wanted (some qs) p in if e.beq q p then true else rest

-- A price, if it is asked for.
abbrev pub offered :
    {Pair V : Type 0} ⦃e : Eq Pair⦄ → Option (List Pair) → Pair → V → Option (Pair × V)
offered pairs p v = if wanted pairs p then some (p, v) else none

abbrev pub before : ℕ → Text × Text → Text × Text
before c (s, t) = (c ∷ s, t)

-- `split_once` at a character.
abbrev pub split_once : ℕ → Text → Option (Text × Text)
split_once sep [] = none
split_once sep (c ∷ s) =
    let rest = split_once sep s in
    if c == sep then some ([], s) else (rest >>= λ parts. some (before c parts))

-- `trim_end_matches` of a character.
abbrev pub trim_end : ℕ → Text → Text
trim_end c [] = []
trim_end c (d ∷ s) = trimmed (trim_end c s)
  where
    trimmed : Text → Text
    trimmed [] = if d == c then [] else d ∷ []
    trimmed (x ∷ rest) = d ∷ x ∷ rest

-- A loop that reads each element, skips some, and panics at the first that panics.
abbrev pub keep_all : {A B : Type 0} → (A → Option (Option B)) → List A → Option (List B)
keep_all entry [] = some []
keep_all entry (x ∷ xs) =
    entry x >>= λ o. keep_all entry xs >>= λ ys. some (elim o [ none ↦ ys | some y ↦ y ∷ ys ])

-- A loop that puts what each element gives into a map, and panics at the first that panics.
abbrev pub read_into :
    {A K V : Type 0} ⦃e : Eq K⦄
    → (A → Option (Option (K × V)))
    → List A
    → Map K V
    → Option (Map K V)
read_into entry [] m = some m
read_into entry (x ∷ xs) m = entry x >>= λ o. read_into entry xs (put o m)

-- The digits behind the first dot, less the zeros at the end, as a `u8`.
unfoldable pub count_significant_decimals : Text → ℕ
count_significant_decimals s = elim (split_once 46 s) [
  | none ↦ 0
  | some (_, decimals) ↦ length (trim_end 48 decimals) % 256
]
