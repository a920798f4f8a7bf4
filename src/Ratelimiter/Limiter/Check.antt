-- ===== src/Ratelimiter/Limiter/Check.antt =====
-- One check of a key: what it answers, what it writes, and that a refused caller passes after the
-- wait that the refusal states.
use v_exchanges.Prelude.{
  ℕ, ◌+◌, ◌-◌, ◌*◌, ◌≤◌, ◌<◌, ◌≡◌, ◌⊎◌, inl, inr, max, Option, some, [], Result, ok, err, Eq, Map,
  insert, insert_self, u64_mod, arith, saturating_mul, ap, ◌∙◌,
}
use v_exchanges.Ratelimiter.Nanos
use v_exchanges.Ratelimiter.Nanos.{Nanos, Duration}
use v_exchanges.Ratelimiter.Gcra.{Gcra, NotUntil, decide, measured, wait_time_from}
use v_exchanges.Ratelimiter.Gcra.Decision.{IsSound, refusal, decide_cases}
use v_exchanges.Ratelimiter.StateStore.{nonzero, or_default, measure_and_replace}
use v_exchanges.Ratelimiter.Limiter.{RateLimiter, governing, check_key_n}

module _ {K T E : Type 0} ⦃e : Eq K⦄ (f : Option Nanos → Result E (T × Nanos)) where
  measure-ok :
      (key : K) (m : Map K ℕ) {x : T} {c : ℕ}
      → f (nonzero (or_default (m key))) ≡ ok (x, c)
      → measure_and_replace f [] key m ≡ (ok x, insert key c m)
  unfolding measure_and_replace
  measure-ok key m p = ground arith

  measure-err :
      (key : K) (m : Map K ℕ) {x : E}
      → f (nonzero (or_default (m key))) ≡ err x
      → measure_and_replace f [] key m ≡ (err x, insert key (or_default (m key)) m)
  unfolding measure_and_replace
  measure-err key m p = ground arith

-- How long a refusal at `earliest` makes its caller wait.
wait-refusal :
    (g : Gcra) (start earliest from : Nanos)
    → start + earliest < u64_mod
    → start + earliest ≤ from + wait_time_from (refusal g start earliest) from
unfolding wait_time_from
wait-refusal g start earliest from h = ground arith

-- A refused state is one that the cell holds.
refused_state :
    (g : Gcra) (t0 cell horizon : ℕ)
    → IsSound g horizon
    → t0 ≤ horizon
    → t0 + g.tau < measured g t0 (nonzero cell)
    → measured g t0 (nonzero cell) ≡ cell
refused_state g t0 cell horizon sound h lt = ground arith

measured-le :
    (g : Gcra) (t0 cell horizon : ℕ)
    → IsSound g horizon
    → t0 ≤ horizon
    → cell ≤ t0 + g.tau
    → measured g t0 (nonzero cell) ≤ t0 + g.tau
measured-le g t0 cell horizon sound h le = ground arith

module _ {K : Type 0} ⦃e : Eq K⦄ where
  check_key_n-governed :
      (rl : RateLimiter K) (key : K) (n : ℕ) (g : Gcra) (now : Nanos)
      {r : Result NotUntil (Unit {0})} {m : Map K ℕ}
      → governing rl key ≡ some g
      → saturating_mul g.t n ≤ g.tau
      → measure_and_replace (decide g rl.start (Nanos.mul g.t n) (now - rl.start)) [] key rl.state
        ≡ (r, m)
      → check_key_n rl key n [] now ≡ some (r, record rl { state = m })
  unfolding check_key_n
  check_key_n-governed rl key n g now governed light p = ground arith

  abbrev pub cell_of : RateLimiter K → K → ℕ
  cell_of rl key = or_default (rl.state key)

  -- A key that a sound quota governs, and a weight that its burst can hold, for checks up to
  -- `horizon` nanoseconds after the limiter's start.
  pub record IsServed (rl : RateLimiter K) (key : K) (n : ℕ) (g : Gcra) (horizon : ℕ) : Type 0 where
    pub governed : governing rl key ≡ some g
    pub sound : IsSound g horizon
    pub light : saturating_mul g.t n ≤ g.tau
    pub dated : rl.start + cell_of rl key < u64_mod

  abbrev pub with_cell : RateLimiter K → K → ℕ → RateLimiter K
  with_cell rl key c = record rl { state = insert key c rl.state }

  module _ (rl : RateLimiter K) (key : K) (n : ℕ) (g : Gcra) (horizon : ℕ)
      (served : IsServed rl key n g horizon) where
    -- An undisturbed check of a served key: it passes exactly when the key's state is at most the
    -- burst ahead of the time since the start, and moves that state by the weight; a refusal states
    -- the time to wait for and leaves the state.
    pub check_key_n_cases :
        (now : Nanos)
        → now - rl.start ≤ horizon
        → let t0 = now - rl.start in
          let tat = measured g t0 (nonzero (cell_of rl key)) in
          ((tat ≤ t0 + g.tau)
            × (check_key_n rl key n [] now ≡ some (ok tt, with_cell rl key (max tat t0 + g.t * n))))
          ⊎ ((t0 + g.tau < tat)
              × (check_key_n rl key n [] now
                  ≡ some
                      (err (refusal g rl.start (tat - g.tau)), with_cell rl key (cell_of rl key))))
    unfolding check_key_n
    check_key_n_cases now h =
        let fits : g.t * n ≤ g.tau = omega (arith, served.light, served.sound.fits) in
        let exact : Nanos.mul g.t n ≡ g.t * n = omega (arith, served.sound.fits) in
        let t0 = now - rl.start in
        let tat = measured g t0 (nonzero (cell_of rl key)) in
        elim (decide_cases g rl.start (Nanos.mul g.t n) t0 horizon served.sound
          (nonzero (cell_of rl key)) h (omega arith)) [
            | inl (le, p) ↦ inl (
              le,
              check_key_n-governed rl key n g now served.governed served.light (
                  measure-ok (decide g rl.start (Nanos.mul g.t n) t0) key rl.state
                    (p ∙ ap (λ (k : ℕ). ok (tt, max tat t0 + k)) exact)),
            )
            | inr (lt, p) ↦ inr (
              lt,
              check_key_n-governed rl key n g now served.governed served.light
                  (measure-err (decide g rl.start (Nanos.mul g.t n) t0) key rl.state p),
            )
          ]

  with_cell-IsServed :
      (rl : RateLimiter K) (key : K) (n : ℕ) (g : Gcra) (horizon : ℕ)
      → IsServed rl key n g horizon
      → IsServed (with_cell rl key (cell_of rl key)) key n g horizon
  with_cell-IsServed rl key n g horizon served = record {
    governed = served.governed;
    sound = served.sound;
    light = served.light;
    dated = rw (insert_self key (cell_of rl key) rl.state) served.dated;
  }

  passes :
      (rl : RateLimiter K) (key : K) (n : ℕ) (g : Gcra) (horizon : ℕ) (now : Nanos)
      → IsServed rl key n g horizon
      → now - rl.start ≤ horizon
      → cell_of rl key ≤ now - rl.start + g.tau
      → (rl' : RateLimiter K) × (check_key_n rl key n [] now ≡ some (ok tt, rl'))
  passes rl key n g horizon now served h le =
      elim (check_key_n_cases rl key n g horizon served now h) [
        | inl (_, p) ↦ (_, p)
        | inr (lt, _) ↦ absurd (
            omega
              (arith, measured-le g (now - rl.start) (cell_of rl key) horizon served.sound h le))
      ]

  pub check_outcome :
      (rl : RateLimiter K) (key : K) (n : ℕ) (g : Gcra) (horizon : ℕ) (now : Nanos)
      → IsServed rl key n g horizon
      → now - rl.start ≤ horizon
      → ((rl' : RateLimiter K) × (check_key_n rl key n [] now ≡ some (ok tt, rl')))
        ⊎ ((until : NotUntil) × (rl' : RateLimiter K) × (check_key_n rl key n [] now
              ≡ some (err until, rl')))
  check_outcome rl key n g horizon now served h =
      elim (check_key_n_cases rl key n g horizon served now h) [
        | inl (_, p) ↦ inl (_, p)
        | inr (_, p) ↦ inr (_, _, p)
      ]

  -- A caller that is refused, and comes back behind the wait that the refusal states, passes if
  -- nobody else has used the key meanwhile.
  pub refused_then_ready :
      (rl : RateLimiter K) (key : K) (n : ℕ) (g : Gcra) (horizon : ℕ) (now now' back : Nanos)
      (until : NotUntil) (rl' : RateLimiter K)
      → IsServed rl key n g horizon
      → now - rl.start ≤ horizon
      → back - rl.start ≤ horizon
      → check_key_n rl key n [] now ≡ some (err until, rl')
      → now' + wait_time_from until now' ≤ back
      → (rl'' : RateLimiter K) × (check_key_n rl' key n [] back ≡ some (ok tt, rl''))
  refused_then_ready rl key n g horizon now now' back until rl' served h h' refused waited =
      elim (check_key_n_cases rl key n g horizon served now h) [
        | inl (le, p) ↦ cc
        | inr (lt, p) ↦
            (let cell = cell_of rl key in
              let held = refused_state g (now - rl.start) cell horizon served.sound h lt in
              let same : until ≡ refusal g rl.start (cell - g.tau) = rw (← held) (cc) in
              let kept : rl' ≡ with_cell rl key cell = cc in
              rw kept (
                passes (with_cell rl key cell) key n g horizon back
                  (with_cell-IsServed rl key n g horizon served) h'
                  (rw (insert_self key cell rl.state) (
                    omega (
                      arith,
                      served.dated,
                      rw same at waited,
                      wait-refusal g rl.start (cell - g.tau) now' (omega (arith, served.dated)),
                    )))))
      ]
