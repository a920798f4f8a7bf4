-- ===== src/Ratelimiter/Gcra/Decision.antt =====
-- What one GCRA decision does, read without the wrap-around of machine words.
use v_exchanges.Prelude.{
  ℕ, ◌+◌, ◌-◌, ◌*◌, ◌≤◌, ◌<◌, ◌≡◌, ◌⊎◌, inl, inr, max, Option, none, some, ok, err, u64_mod, arith,
  Bool-cases, ltb,
}
use v_exchanges.Ratelimiter.Nanos.{Nanos}
use v_exchanges.Ratelimiter.Gcra.{Gcra, NotUntil, decide, measured}

-- The parameters of a limiter up to a time `horizon`: a cell has a weight, a burst holds at least
-- one cell, and no sum of the decision passes 2 ^ 64 nanoseconds.
pub record IsSound (g : Gcra) (horizon : ℕ) : Type 0 where
  pub weighs : 0 < g.t
  pub holds : g.t ≤ g.tau
  pub fits : horizon + 2 * g.tau < u64_mod

-- A refusal: the time from which a cell conforms, as the snapshot states it.
abbrev pub refusal : Gcra → Nanos → Nanos → NotUntil
refusal g start earliest = record {
  state = record { t = g.t; tau = g.tau; time_of_measurement = earliest; tat = earliest };
  start = start;
}

module _ (g : Gcra) (start weight t0 : Nanos) (horizon : ℕ) (sound : IsSound g horizon) where
  -- A weight within the burst passes at a time up to the horizon exactly when the state is at most
  -- the burst ahead of that time; it moves the state by the weight, from the later of the two. All
  -- else is refused until the state is the burst ahead.
  pub decide_cases :
      (state : Option Nanos)
      → t0 ≤ horizon
      → weight ≤ g.tau
      → let tat = measured g t0 state in
        ((tat ≤ t0 + g.tau) × (decide g start weight t0 state ≡ ok (tt, max tat t0 + weight)))
        ⊎ ((t0 + g.tau < tat)
            × (decide g start weight t0 state ≡ err (refusal g start (tat - g.tau))))
  unfolding decide
  decide_cases none h w = inl (ground arith, ground arith)
  decide_cases (some tat) h w = elim (Bool-cases (ltb t0 (tat - g.tau))) [
    | inl late ↦ inr (ground arith, ground arith)
    | inr early ↦ inl (ground arith, ground arith)
  ]
