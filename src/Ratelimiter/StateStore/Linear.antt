-- ===== src/Ratelimiter/StateStore/Linear.antt =====
-- The compare-exchange loops against interference: each acts at once on what the cell holds.
use v_exchanges.Prelude.{
  ℕ, ◌+◌, ◌%◌, ◌≤◌, ◌≡◌, refl, ◌⊎◌, inl, inr, Option, List, [], ◌∷◌, Result, ok, err, u64_mod,
  u64_max, arith, Bool-cases, Result-cases, some,
}
use v_exchanges.Ratelimiter.Nanos.{Nanos}
use v_exchanges.Ratelimiter.Clock.{Attempt, after, exchanges, advance}
use v_exchanges.Ratelimiter.StateStore.{nonzero, measure_and_replace_one}

-- `v` is what the cell holds at some time while the attempts go on.
abbrev pub Held : ℕ → ℕ → List Attempt → Type 0
Held v cell [] = v ≡ cell
Held v cell (a ∷ rest) = (v ≡ cell) ⊎ Held v (after a cell) rest

-- `v` is what the cell holds at the moment of one of the exchanges.
abbrev pub IsExchanged : ℕ → ℕ → List Attempt → Type 0
IsExchanged v cell [] = v ≡ cell
IsExchanged v cell (a ∷ rest) = (v ≡ after a cell) ⊎ IsExchanged v (after a cell) rest

module _ {T E : Type 0} (f : Option Nanos → Result E (T × Nanos)) where
  -- The sequential specification: one application of the closure to the cell.
  abbrev pub apply_once : ℕ → Result E T × ℕ
  apply_once v = elim (f (nonzero v)) [ ok (result, next) ↦ (ok result, next) | err e ↦ (err e, v) ]

  -- Where the closure is applied: to what the cell holds when it is exchanged, if the closure grants,
  -- and to a content that it held meanwhile, if the closure refuses.
  abbrev pub IsMoment : ℕ → ℕ → List Attempt → Type 0
  IsMoment v cell attempts = elim (f (nonzero v)) [
    | ok _ ↦ IsExchanged v cell attempts
    | err _ ↦ Held v cell attempts
  ]

  later :
      (v : ℕ) (a : Attempt) (rest : List Attempt) (cell : ℕ)
      → IsMoment v (after a cell) rest
      → IsMoment v cell (a ∷ rest)
  later v a rest cell h = elim (Result-cases (f (nonzero v))) [
    | inl (y, p) ↦ rw (p, IsMoment) (inr (rw (p, IsMoment) at h))
    | inr (x, p) ↦ rw (p, IsMoment) (inr (rw (p, IsMoment) at h))
  ]

  -- Whatever interferes, `measure_and_replace_one` acts as one application of the closure: where it
  -- stores, to what the cell holds at the moment of the store, so that no store of another thread is
  -- overwritten unseen, and where it refuses, to a content that the cell had meanwhile.
  pub replace_loop-linear :
      (attempts : List Attempt) (cell : ℕ)
      → (v : ℕ) × IsMoment v cell attempts
        × (measure_and_replace_one f attempts cell ≡ apply_once v)
  unfolding measure_and_replace_one
  replace_loop-linear [] cell = elim (Result-cases (f (nonzero cell))) [
    | inr (x, p) ↦ (cell, rw (p, IsMoment) refl, ground arith)
    | inl (y, p) ↦ (cell, rw (p, IsMoment) refl, ground arith)
  ]
  replace_loop-linear (a ∷ rest) cell =
      let (v, moment, e) = replace_loop-linear rest (after a cell) in
      elim (Result-cases (f (nonzero cell))) [
        | inr (x, p) ↦ (cell, rw (p, IsMoment) (inl refl), ground arith)
        | inl (y, p) ↦ elim (Bool-cases (exchanges a cell)) [
          | inl done ↦ (cell, rw (p, IsMoment) (inl (ground arith)), ground arith)
          | inr again ↦ (v, later v a rest cell moment, ground arith)
        ]
      ]

-- `advance` adds its step to what the clock holds at the moment of its store: no step is lost.
pub advance-linear :
    (attempts : List Attempt) (by cell : ℕ)
    → by ≤ u64_max
    → (v : ℕ) × IsExchanged v cell attempts × (advance attempts by cell ≡ some ((v + by) % u64_mod))
unfolding advance
advance-linear [] by cell h = (cell, refl, ground arith)
advance-linear (a ∷ rest) by cell h =
    let (v, moment, e) = advance-linear rest by (after a cell) h in
    elim (Bool-cases (exchanges a cell)) [
      | inl done ↦ (cell, inl (ground arith), ground arith)
      | inr again ↦ (v, inr moment, ground arith)
    ]
