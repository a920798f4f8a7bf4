-- ===== src/Retry/Manager/Termination.antt =====
-- The retry loop ends, and at which attempt.
use v_exchanges.Prelude.{
  ℕ, [], zero, suc, ◌+◌, ◌≤◌, ◌<◌, ◌≡◌, refl, ◌⊎◌, inl, inr, true, false, none, some, ok, err,
  arith, Result-cases,
}
use v_exchanges.Retry.Float.{Float}
use v_exchanges.Retry.Config.{RetryConfig}
use v_exchanges.Retry.Backoff.{ExponentialBackoff, next_duration, of_config}
use v_exchanges.Retry.Manager.{
  Environment, Run, invalid_configuration, stop, retry_loop, execute_with_retry, Round, done, again,
  round, delayed,
}

module _ (fl : Float) {T E : Type 0} (config : RetryConfig fl) (env : Environment T E) where
  Round-cases : (r : Round T E) → ((x : Run T E) × (r ≡ done x)) ⊎ ((d : ℕ) × (r ≡ again d))
  Round-cases (done x) = inl (x, refl)
  Round-cases (again d) = inr (d, refl)

  round-again :
      (attempt delay d : ℕ)
      → round fl config env attempt delay ≡ again d
      → attempt < config.max_retries
  unfolding round
  round-again attempt delay d p = ground arith

  round-done :
      (attempt delay : ℕ) (r : Run T E)
      → round fl config env attempt delay ≡ done r
      → r.calls ≤ attempt + 1
  unfolding round
  round-done attempt delay r p = ground arith

  -- Fuel for the attempts that are left is enough, and the operation is called at most once for each.
  retry_loop-total :
      (fuel attempt : ℕ) (b : ExponentialBackoff fl)
      → attempt ≤ config.max_retries
      → config.max_retries < attempt + fuel
      → (r : Run T E) × (retry_loop fl config env fuel attempt b ≡ some r)
        × (r.calls ≤ config.max_retries + 1)
  unfolding retry_loop
  retry_loop-total zero attempt b h k = absurd (omega arith)
  retry_loop-total (suc fuel) attempt b h k =
      let (delay, b') = next_duration fl (env.jitter attempt) b in
      elim (Round-cases (round fl config env attempt delay)) [
        | inl (r, p) ↦ (r, rw (p, retry_loop) refl, omega (arith, round-done attempt delay r p))
        | inr (d, p) ↦
            (let (r, q, c) =
                retry_loop-total fuel (attempt + 1) b'
                  (omega (arith, round-again attempt delay d p)) (omega arith) in
              (delayed d r, rw (p, retry_loop) (rw q refl), c))
      ]

  -- Every run ends with a result, and calls the operation at most `max_retries + 1` times.
  pub execute_with_retry-total :
      (r : Run T E) × (execute_with_retry fl config env ≡ some r)
      × (r.calls ≤ config.max_retries + 1)
  unfolding execute_with_retry
  execute_with_retry-total = elim (Result-cases (of_config fl config)) [
    | inl (b, p) ↦
        (let (r, q, c) =
            retry_loop-total (suc config.max_retries) 0 b (omega arith) (omega arith) in
          (r, rw (p, execute_with_retry) q, c))
    | inr (e, p) ↦ (
      stop fl config env (err (env.create_error (invalid_configuration e))) 0,
      rw (p, execute_with_retry) refl,
      omega arith,
    )
  ]

  -- The attempt `k` is the last one by its outcome or by its number.
  abbrev pub Ends : ℕ → Type 0
  Ends k =
      (k ≡ config.max_retries)
      ⊎ ((t : T) × (env.operation k ≡ ok t))
      ⊎ ((e : E) × (env.operation k ≡ err e) × (env.should_retry e ≡ false))

  -- The attempt `k` failed in a way that is retried.
  abbrev pub Goes : ℕ → Type 0
  Goes k = (e : E) × (env.operation k ≡ err e) × (env.should_retry e ≡ true)

  module _ (free : config.max_elapsed_ms ≡ none) where
    round-Ends :
        (k delay : ℕ)
        → k ≤ config.max_retries
        → Ends k
        → round fl config env k delay
          ≡ done (record { result = env.operation k; calls = k + 1; delays = [] })
    unfolding round
    round-Ends k delay h e = ground arith

    round-Goes :
        (k delay : ℕ) → k < config.max_retries → Goes k → round fl config env k delay ≡ again delay
    unfolding round
    round-Goes k delay h (e, p, q) = ground arith

    retry_loop-Ends :
        (n fuel attempt k : ℕ) (b : ExponentialBackoff fl)
        → n < fuel
        → attempt + n ≡ k
        → k ≤ config.max_retries
        → ((j : ℕ) → j < k → Goes j)
        → Ends k
        → (r : Run T E) × (retry_loop fl config env fuel attempt b ≡ some r)
          × (r.result ≡ env.operation k)
          × (r.calls ≡ k + 1)
    unfolding retry_loop
    retry_loop-Ends n zero attempt k b l e h goes ends = absurd (omega arith)
    retry_loop-Ends zero (suc fuel) attempt k b l e h goes ends =
        let (delay, b') = next_duration fl (env.jitter attempt) b in
        let same : k ≡ attempt = omega arith in
        (
          record { result = env.operation k; calls = k + 1; delays = [] },
          rw (round-Ends attempt delay (omega arith) (rw same at ends), retry_loop) (rw same refl),
          refl,
          refl,
        )
    retry_loop-Ends (suc n) (suc fuel) attempt k b l e h goes ends =
        let (delay, b') = next_duration fl (env.jitter attempt) b in
        let (r, q, x, c) =
          retry_loop-Ends n fuel (attempt + 1) k b' (omega arith) (omega arith) h goes ends in
        (
          delayed delay r,
          rw (round-Goes attempt delay (omega arith) (goes attempt (omega arith)), retry_loop)
              (rw q refl),
          x,
          c,
        )

    -- Without a time budget and with a valid configuration, a run answers what the operation answers
    -- at the first attempt that succeeds, or fails for good, or is the last one allowed; it makes
    -- exactly the calls up to that one.
    pub execute_with_retry-Ends :
        (k : ℕ) (b : ExponentialBackoff fl)
        → of_config fl config ≡ ok b
        → k ≤ config.max_retries
        → ((j : ℕ) → j < k → Goes j)
        → Ends k
        → (r : Run T E) × (execute_with_retry fl config env ≡ some r)
          × (r.result ≡ env.operation k)
          × (r.calls ≡ k + 1)
    unfolding execute_with_retry
    execute_with_retry-Ends k b p h goes ends =
        let (r, q, x, c) =
          retry_loop-Ends k (suc config.max_retries) 0 k b (omega arith) (omega arith) h goes
            ends in
        (r, rw (p, execute_with_retry) q, x, c)
