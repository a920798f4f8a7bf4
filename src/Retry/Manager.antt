-- ===== src/Retry/Manager.antt =====
-- `RetryManager::execute_with_retry` (v_exchanges_api_generics/src/retry/mod.rs). What the operation
-- answers at each attempt, the clock and the random jitter are the environment's.
pub mod Termination
use v_exchanges.Prelude.{
  ℕ, zero, suc, ◌+◌, ◌-◌, ◌*◌, Bool, true, false, not, min, Option, none, some, List, [], ◌∷◌,
  Result, ok, err, if◌then◌else◌, leb, ltb, ◌==◌,
}
use v_exchanges.Retry.Float.{Float}
use v_exchanges.Retry.Config.{RetryConfig}
use v_exchanges.Retry.Backoff.{
  ExponentialBackoff, BackoffError, next_duration, of_config, from_millis,
}

-- The two messages that are handed to `create_error`.
pub data Message : Type 0 where
  invalid_configuration : BackoffError → Message
  budget_exceeded : Message

-- The operation's outcome at each attempt, the time elapsed at the head of the loop and behind a
-- failure (in nanoseconds), and the jitter drawn.
pub record Environment (T E : Type 0) : Type 0 where
  pub operation : ℕ → Result E T
  pub elapsed_before : ℕ → ℕ
  pub elapsed_after : ℕ → ℕ
  pub jitter : ℕ → ℕ
  pub should_retry : E → Bool
  pub create_error : Message → E

-- What a run gives: its result, how often it called the operation, and the delays between calls.
pub record Run (T E : Type 0) : Type 0 where
  pub result : Result E T
  pub calls : ℕ
  pub delays : List ℕ

-- A round of the loop: it returns, or sleeps and goes on.
pub data Round (T E : Type 0) : Type 0 where
  done : Run T E → Round T E
  again : ℕ → Round T E

abbrev pub delayed : {T E : Type 0} → ℕ → Run T E → Run T E
delayed d r = record r { delays = d ∷ r.delays }

-- `elapsed.as_millis() >= max_elapsed_ms`, where there is a budget.
abbrev pub over_budget : Option ℕ → ℕ → Bool
over_budget none elapsed = false
over_budget (some max_ms) elapsed = leb (from_millis max_ms) elapsed

-- The delay as the rest of the budget allows it; none if nothing is left.
abbrev pub clip : Option ℕ → ℕ → ℕ → Option ℕ
clip none elapsed delay = some delay
clip (some max_ms) elapsed delay =
    let remaining = from_millis max_ms - elapsed in
    if remaining == 0 then none else some (min delay remaining)

module _ (fl : Float) {T E : Type 0} (config : RetryConfig fl) (env : Environment T E) where
  open env use {operation, elapsed_before, elapsed_after, jitter, should_retry, create_error}

  -- A run that ends in the attempt `attempt`, behind the call.
  abbrev pub stop : Result E T → ℕ → Run T E
  stop r calls = record { result = r; calls = calls; delays = [] }

  -- One round of the loop, with the delay that `next_duration` would give.
  unfoldable pub round : ℕ → ℕ → Round T E
  round attempt delay =
      if over_budget config.max_elapsed_ms (elapsed_before attempt)
      then done (stop (err (create_error budget_exceeded)) attempt)
      else elim (operation attempt) [
        | ok success ↦ done (stop (ok success) (attempt + 1))
        | err e ↦
            (if not (should_retry e)
              then done (stop (err e) (attempt + 1))
              else if leb config.max_retries attempt
              then done (stop (err e) (attempt + 1))
              else elim (clip config.max_elapsed_ms (elapsed_after attempt) delay) [
                | none ↦ done (stop (err (create_error budget_exceeded)) (attempt + 1))
                | some d ↦ again d
              ])
      ]

  -- The loop, on fuel; `none` says that it ran out. The backoff moves only where a round goes on.
  unfoldable pub retry_loop : ℕ → ℕ → ExponentialBackoff fl → Option (Run T E)
  unfolding round
  retry_loop zero attempt backoff = none
  retry_loop (suc fuel) attempt backoff =
      let (delay, backoff') = next_duration fl (jitter attempt) backoff in
      let rest = retry_loop fuel (attempt + 1) backoff' in
      elim (round attempt delay) [
        | done r ↦ some r
        | again d ↦ elim rest [ none ↦ none | some r ↦ some (delayed d r) ]
      ]

  -- `execute_with_retry`: fuel for one attempt more than there are retries is enough.
  unfoldable pub execute_with_retry : Option (Run T E)
  unfolding retry_loop
  execute_with_retry = elim (of_config fl config) [
    | err e ↦ some (stop (err (create_error (invalid_configuration e))) 0)
    | ok backoff ↦ retry_loop (suc config.max_retries) 0 backoff
  ]
