-- ===== src/Retry/Backoff/Runs.antt =====
-- Whole runs of calls of `next_duration`.
use v_exchanges.Prelude.{
  ℕ, ◌+◌, ◌≤◌, ◌^◌, ◌≡◌, refl, ◌∙◌, Bool, List, [], ◌∷◌, ok, arith, if◌then◌else◌,
}
use v_exchanges.Retry.Float.{Float, IsExact}
use v_exchanges.Retry.Backoff.{ExponentialBackoff, try_new, next_duration, reset, from_millis}
use v_exchanges.Retry.Backoff.Bounds.{
  IsValid, IsStarted, try_new-IsValid, next_duration-IsStarted, next_duration-IsValid,
  final_nanos_capped, final_nanos_grows,
}

module _ (fl : Float) where
  open fl use {F}

  -- A run of calls, with the jitter that each drew: the delays, and the last state.
  pub delays : List ℕ → ExponentialBackoff fl → List ℕ × ExponentialBackoff fl
  delays [] b = ([], b)
  delays (j ∷ js) b =
      let (d, b') = next_duration fl j b in let (ds, b'') = delays js b' in (d ∷ ds, b'')

  abbrev pub AllAtMost : ℕ → List ℕ → Type 0
  AllAtMost m [] = Unit {0}
  AllAtMost m (x ∷ xs) = (x ≤ m) × AllAtMost m xs

  abbrev pub AllAtLeast : ℕ → List ℕ → Type 0
  AllAtLeast m [] = Unit {0}
  AllAtLeast m (x ∷ xs) = (m ≤ x) × AllAtLeast m xs

  reset-step :
      (jitter : ℕ) (b : ExponentialBackoff fl) → reset fl (next_duration fl jitter b).1 ≡ reset fl b
  unfolding next_duration reset
  reset-step jitter b = ground arith

  reset-run : (js : List ℕ) (b : ExponentialBackoff fl) → reset fl (delays js b).1 ≡ reset fl b
  unfolding delays
  reset-run [] b = refl
  reset-run (j ∷ js) b = reset-run js (next_duration fl j b).1 ∙ reset-step j b

  reset-fresh :
      (initial max_delay : ℕ) (factor : F) (jitter_ms : ℕ) (immediate : Bool)
      (b : ExponentialBackoff fl)
      → try_new fl initial max_delay factor jitter_ms immediate ≡ ok b
      → reset fl b ≡ b
  unfolding try_new reset
  reset-fresh initial max_delay factor jitter_ms immediate b p = ground arith

  -- However many calls were made since, `reset` gives what `try_new` gave.
  pub reset-delays :
      (js : List ℕ) (initial max_delay : ℕ) (factor : F) (jitter_ms : ℕ) (immediate : Bool)
      (b : ExponentialBackoff fl)
      → try_new fl initial max_delay factor jitter_ms immediate ≡ ok b
      → reset fl (delays js b).1 ≡ b
  reset-delays js initial max_delay factor jitter_ms immediate b p =
      reset-run js b ∙ reset-fresh initial max_delay factor jitter_ms immediate b p

  -- No delay of a run passes the largest delay and the largest jitter together.
  pub delays-bounded :
      (js : List ℕ) (b : ExponentialBackoff fl) (max_delay jitter_ms : ℕ)
      → IsValid fl b
      → b.delay_max ≡ max_delay
      → b.jitter_ms ≡ jitter_ms
      → AllAtMost jitter_ms js
      → AllAtMost (max_delay + from_millis jitter_ms) (delays js b).0
  unfolding delays
  delays-bounded [] b max_delay jitter_ms v m j h = tt
  delays-bounded (x ∷ js) b max_delay jitter_ms v m j h =
      let (v', d, m', j', _, _) = next_duration-IsValid fl x b (omega arith) v in
      (
        omega arith,
        delays-bounded js (next_duration fl x b).1 max_delay jitter_ms v' (m' ∙ m) (j' ∙ j) h.1,
      )

  module _ (exact : IsExact fl) where
    later_delays :
        (js : List ℕ) (b : ExponentialBackoff fl) (initial jitter_ms : ℕ)
        → IsStarted fl exact b
        → b.delay_initial ≡ initial
        → b.jitter_ms ≡ jitter_ms
        → AllAtMost jitter_ms js
        → AllAtLeast initial (delays js b).0
    unfolding delays
    later_delays [] b initial jitter_ms v i j h = tt
    later_delays (x ∷ js) b initial jitter_ms v i j h =
        let (v', d, _, i', j') = next_duration-IsStarted fl exact x b (omega arith) v in
        (
          omega (arith, v.grown),
          later_delays js (next_duration fl x b).1 initial jitter_ms v' (i' ∙ i) (j' ∙ j) h.1,
        )

    started :
        (j initial max_delay : ℕ) (factor : F) (jitter_ms : ℕ) (immediate : Bool)
        (b : ExponentialBackoff fl)
        → max_delay ≤ 2 ^ 53
        → try_new fl initial max_delay factor jitter_ms immediate ≡ ok b
        → IsStarted fl exact (next_duration fl j b).1
          × ((next_duration fl j b).0 ≡ (if immediate then 0 else initial + from_millis j))
          × ((next_duration fl j b).1.delay_initial ≡ initial)
          × ((next_duration fl j b).1.jitter_ms ≡ jitter_ms)
    unfolding next_duration try_new
    started j initial max_delay factor jitter_ms immediate b small p =
        let (v, _, _) = try_new-IsValid fl initial max_delay factor jitter_ms immediate b p in
        ground (arith, final_nanos_capped fl b, final_nanos_grows fl exact b v)

    -- The delays of a new backoff, while they stay below 2 ^ 53 nanoseconds: the first is zero with
    -- an immediate first reconnect, and else the initial delay and its jitter; all later ones are
    -- the initial delay at least.
    pub zero_only_first :
        (j : ℕ) (js : List ℕ) (initial max_delay : ℕ) (factor : F) (jitter_ms : ℕ)
        (immediate : Bool) (b : ExponentialBackoff fl)
        → max_delay ≤ 2 ^ 53
        → try_new fl initial max_delay factor jitter_ms immediate ≡ ok b
        → AllAtMost jitter_ms js
        → ((next_duration fl j b).0 ≡ (if immediate then 0 else initial + from_millis j))
          × AllAtLeast initial (delays js (next_duration fl j b).1).0
    zero_only_first j js initial max_delay factor jitter_ms immediate b small p h =
        let (s, d, i, k) = started j initial max_delay factor jitter_ms immediate b small p in
        (d, later_delays js (next_duration fl j b).1 initial jitter_ms s i k h)
