-- ===== src/Ratelimiter/Limiter/Wait.antt =====
-- The waiting loop and the separation of keys.
use v_exchanges.Prelude.{
  ℕ, ◌+◌, ◌-◌, ◌≤◌, ◌≡◌, ◌≢◌, refl, inl, inr, some, List, [], ◌∷◌, true, Result, err, Eq, insert,
  insert_other, insert_self, beq-ne, arith,
}
use v_exchanges.Ratelimiter.Nanos.{Nanos, Duration}
use v_exchanges.Ratelimiter.Quota.{Quota}
use v_exchanges.Ratelimiter.Clock.{Attempt}
use v_exchanges.Ratelimiter.Gcra
use v_exchanges.Ratelimiter.Gcra.{Gcra, NotUntil, wait_time_from}
use v_exchanges.Ratelimiter.StateStore.{measure_and_replace}
use v_exchanges.Ratelimiter.Limiter.{
  RateLimiter, governing, check_key_n, until_key_ready_n, add_quota_for_key,
}
use v_exchanges.Ratelimiter.Limiter.Check.{IsServed, check_outcome, refused_then_ready}

module _ {K : Type 0} ⦃e : Eq K⦄ where
  -- The wait ends: if each sleep lasts as long as it was asked to, and nobody else uses the key,
  -- the loop finds the key ready in the first round or in the second.
  pub until_key_ready_ends :
      (rl : RateLimiter K) (key : K) (n : ℕ) (g : Gcra) (horizon : ℕ) (now now' back back' : Nanos)
      → IsServed rl key n g horizon
      → now - rl.start ≤ horizon
      → back - rl.start ≤ horizon
      → ((until : NotUntil) (rl' : RateLimiter K)
          → check_key_n rl key n [] now ≡ some (err until, rl')
          → now' + wait_time_from until now' ≤ back)
      → (sleeps : List Duration) × (rl'' : RateLimiter K) × (until_key_ready_n
            ((now, now') ∷ (back, back') ∷ [])
            rl
            key
            n
          ≡ some (true, sleeps, rl''))
  unfolding until_key_ready_n
  until_key_ready_ends rl key n g horizon now now' back back' served h h' slept =
      elim (check_outcome rl key n g horizon now served h) [
        | inl (rl', p) ↦ ([], rl', rw (p, until_key_ready_n) refl)
        | inr (until, rl', p) ↦
            (let (rl'', q) =
                refused_then_ready rl key n g horizon now now' back until rl' served h h' p
                  (slept until rl' p) in
              (
                wait_time_from until now' ∷ [],
                rl'',
                rw (p, until_key_ready_n) (rw (q, until_key_ready_n) refl),
              ))
      ]

  -- A check of one key leaves the state of every other key, all quotas and the start as they were,
  -- whatever interferes.
  pub check_key_n_others :
      (rl rl' : RateLimiter K) (key other : K) (n : ℕ) (attempts : List Attempt) (now : Nanos)
      (r : Result NotUntil (Unit {0}))
      → other ≢ key
      → check_key_n rl key n attempts now ≡ some (r, rl')
      → (rl'.state other ≡ rl.state other)
        × (governing rl' other ≡ governing rl other)
        × (rl'.start ≡ rl.start)
  unfolding check_key_n measure_and_replace
  check_key_n_others rl rl' key other n attempts now r h p =
      let apart = beq-ne other key h in ground arith

  -- A new quota governs its key from then on; it touches no other key, and no state.
  pub add_quota_for_key-governs :
      (rl : RateLimiter K) (key other : K) (q : Quota) (g : Gcra)
      → Gcra.new q ≡ some g
      → other ≢ key
      → (rl' : RateLimiter K) × (add_quota_for_key key q rl ≡ some rl')
        × (governing rl' key ≡ some g)
        × (rl'.state ≡ rl.state)
        × (governing rl' other ≡ governing rl other)
  unfolding add_quota_for_key
  add_quota_for_key-governs rl key other q g p h = (
    record rl { gcra = insert key g rl.gcra },
    rw p,
    rw (insert_self key g rl.gcra, governing),
    refl,
    rw (insert_other key other g rl.gcra h, governing),
  )
