-- ===== src/Tests/Limits.antt =====
-- The rate limiter's theorems at a cell of 10 ns with a burst of 20 ns.
use v_exchanges.Prelude.{
  ℕ, ◌+◌, ◌-◌, ◌*◌, ◌≤◌, ◌<◌, ◌≡◌, ◌≢◌, ◌⊎◌, refl, max, List, [], ◌∷◌, true, Option, none, some,
  Result, ok, err, insert, arith, nat_eq,
}
use v_exchanges.Ratelimiter.Nanos.{Duration}
use v_exchanges.Ratelimiter.Quota.{Quota}
use v_exchanges.Ratelimiter.Clock.{wrote}
use v_exchanges.Ratelimiter.Gcra
use v_exchanges.Ratelimiter.Gcra.{
  Gcra, NotUntil, quota, remaining_burst_capacity, measured, wait_time_from,
}
use v_exchanges.Ratelimiter.Gcra.Decision.{IsSound, refusal}
use v_exchanges.Ratelimiter.Gcra.Replay.{grant, replay}
use v_exchanges.Ratelimiter.Gcra.Bursts.{singles, burst_idle}
use v_exchanges.Ratelimiter.StateStore.{measure_and_replace, measure_and_replace_one}
use v_exchanges.Ratelimiter.StateStore.Linear.{IsMoment, apply_once, replace_loop-linear}
use v_exchanges.Ratelimiter.Interleaving
use v_exchanges.Ratelimiter.Interleaving.{
  World, Step, Reach, Reach-replay, initial, interleaved_rate,
}
use v_exchanges.Ratelimiter.Limiter.{RateLimiter, check_key_n, until_key_ready_n}
use v_exchanges.Ratelimiter.Limiter.Check.{
  IsServed, with_cell, check_key_n_cases, refused_then_ready,
}
use v_exchanges.Ratelimiter.Limiter.Wait.{until_key_ready_ends}

abbrev g : Gcra
g = record { t = 10; tau = 20 }

sound : IsSound g 1_000
sound = record { weighs = ground arith; holds = ground arith; fits = ground arith }

-- A limiter whose key 7 is at 30 ns, and which was started at 5 ns.
abbrev limiter : RateLimiter ℕ
limiter = record {
  default_gcra = some g;
  state = insert 7 30 (λ _. none);
  gcra = λ _. none;
  start = 5;
}

limiter-IsServed : IsServed limiter 7 1 g 1_000
limiter-IsServed = record {
  governed = refl;
  sound = sound;
  light = ground arith;
  dated = ground arith;
}

check_key_n_cases_example :
    ((30 ≤ 20 + 20)
      × (check_key_n limiter 7 1 [] 25 ≡ some (ok tt, with_cell limiter 7 (max 30 20 + 10 * 1))))
    ⊎ ((20 + 20 < 30)
        × (check_key_n limiter 7 1 [] 25
            ≡ some (err (refusal g 5 (30 - 20)), with_cell limiter 7 30)))
check_key_n_cases_example = check_key_n_cases limiter 7 1 g 1_000 limiter-IsServed 25 (ground arith)

abbrev refused : NotUntil
refused = refusal g 5 (30 - 20)

is_refused : check_key_n limiter 7 1 [] 8 ≡ some (err refused, with_cell limiter 7 30)
unfolding check_key_n measure_and_replace Gcra.decide
is_refused = refl

waited : 9 + wait_time_from refused 9 ≤ 15
unfolding wait_time_from
waited = ground arith

refused_then_ready_example :
    (rl : RateLimiter ℕ) × (check_key_n (with_cell limiter 7 30) 7 1 [] 15 ≡ some (ok tt, rl))
refused_then_ready_example =
    refused_then_ready limiter 7 1 g 1_000 8 9 15 refused (with_cell limiter 7 30) limiter-IsServed
      (ground arith) (ground arith) is_refused waited

slept :
    (until : NotUntil) (rl : RateLimiter ℕ)
    → check_key_n limiter 7 1 [] 8 ≡ some (err until, rl)
    → 9 + wait_time_from until 9 ≤ 15
slept until rl p = let same : refused ≡ until = ground (arith, is_refused, p) in rw same at waited

until_key_ready_ends_example :
    (sleeps : List Duration) × (rl : RateLimiter ℕ) × (until_key_ready_n
        ((8, 9) ∷ (15, 16) ∷ [])
        limiter
        7
        1
      ≡ some (true, sleeps, rl))
until_key_ready_ends_example =
    until_key_ready_ends limiter 7 1 g 1_000 8 9 15 16 limiter-IsServed (ground arith)
      (ground arith) slept

other_key : ◌≢◌ {A = ℕ} 3 7
other_key = ground arith

abbrev two_each_ten : Quota
two_each_ten = record { max_burst = 2; replenish_1_per = 10 }

two_each_ten-new : Gcra.new two_each_ten ≡ some g
unfolding Gcra.new
two_each_ten-new = refl

-- Three requests of one thread, and their log.
abbrev w₁ : World
w₁ = record initial {
  threads = Interleaving.put 0 (Interleaving.measuring (100, 1) 0) initial.threads;
}

abbrev w₂ : World
w₂ = record w₁ {
  cell = 120;
  threads = Interleaving.put 0 Interleaving.idle w₁.threads;
  log = (100, 1) ∷ [];
}

abbrev w₃ : World
w₃ = record w₂ { threads = Interleaving.put 1 (Interleaving.measuring (105, 2) 120) w₂.threads }

abbrev w₄ : World
w₄ = record w₃ {
  cell = 140;
  threads = Interleaving.put 1 Interleaving.idle w₃.threads;
  log = (100, 1) ∷ (105, 2) ∷ [];
}

reached : Reach g initial w₄
unfolding grant Gcra.decide
reached =
    let r₁ : Reach g initial w₁ =
      Interleaving.step Interleaving.here (Interleaving.load 0 (100, 1) refl) in
    let r₂ : Reach g initial w₂ =
      Interleaving.step r₁ (Interleaving.store 0 (100, 1) 120 refl refl) in
    let r₃ : Reach g initial w₃ = Interleaving.step r₂ (Interleaving.load 1 (105, 2) refl) in
    Interleaving.step r₃ (Interleaving.store 1 (105, 2) 140 refl refl)

interleaved_rate_example : 100 + 10 * 1 ≤ 105 + 20
interleaved_rate_example =
    interleaved_rate {g = g} {w = w₄} 1_000 (100, 1) [] (105, 2) sound
      ((ground arith, ground arith), tt) (ground arith, ground arith) refl reached

burst_idle_example :
    (replay g (singles 3 100) 50 ≡ some (100 + 10 + 20)) × (replay g (singles 4 100) 50 ≡ none)
burst_idle_example =
    burst_idle g 1_000 sound 100 (ground arith) 2 50 refl (ground arith) (ground arith)

-- One more attempt than an interference that moved the cell from 30 to 50.
add_ten : Option ℕ → Result (Unit {0}) (ℕ × ℕ)
add_ten none = err tt
add_ten (some v) = ok (v, v + 10)

replace_loop-linear_example :
    (v : ℕ) × IsMoment add_ten v 30 (wrote 50 ∷ [])
    × (measure_and_replace_one add_ten (wrote 50 ∷ []) 30 ≡ apply_once add_ten v)
replace_loop-linear_example = replace_loop-linear add_ten (wrote 50 ∷ []) 30
