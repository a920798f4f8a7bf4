-- ===== src/Ratelimiter/Gcra/Bursts.antt =====
-- How many requests pass at one instant, and weighted requests beside single ones.
use v_exchanges.Prelude.{
  ℕ, zero, suc, ◌+◌, ◌*◌, ◌≤◌, ◌<◌, ◌≡◌, ap, ◌∙◌, inl, inr, max, List, [], ◌∷◌, none, some, arith,
  Bool-cases, leb,
}
use v_exchanges.Ratelimiter.Nanos.{Nanos}
use v_exchanges.Ratelimiter.Gcra.{Gcra, measured}
use v_exchanges.Ratelimiter.Gcra.Decision.{IsSound}
use v_exchanges.Ratelimiter.Gcra.Replay.{
  Request, grant, replay, replay-cons, replay-grant, replay-refused, replay-nil, IsAllowed,
  grant_cases,
}
use v_exchanges.Ratelimiter.StateStore.{nonzero}

-- `k` requests of one unit each, all at time `t0`.
abbrev pub singles : ℕ → Nanos → List Request
singles zero t0 = []
singles (suc k) t0 = (t0, 1) ∷ singles k t0

module _ (g : Gcra) (horizon : ℕ) (sound : IsSound g horizon) (t0 : Nanos)
    (now : t0 ≤ horizon) where
  single-IsAllowed : IsAllowed g horizon (t0, 1)
  single-IsAllowed = (now, omega (arith, sound.holds))

  -- A cell that holds a state from `t0` on, and one single request at `t0`.
  grant_single :
      (cell : ℕ)
      → 0 < cell
      → t0 ≤ cell
      → cell ≤ t0 + g.tau
      → grant g (t0, 1) cell ≡ some (cell + g.t)
  grant_single cell pos late h =
      ground (arith, grant_cases g horizon sound (t0, 1) cell single-IsAllowed)

  refuse_single : (cell : ℕ) → 0 < cell → t0 + g.tau < cell → grant g (t0, 1) cell ≡ none
  refuse_single cell pos h =
      ground (arith, grant_cases g horizon sound (t0, 1) cell single-IsAllowed)

  pub singles_pass :
      (k cell : ℕ)
      → 0 < cell
      → t0 ≤ cell
      → cell + g.t * k ≤ t0 + g.tau + g.t
      → replay g (singles k t0) cell ≡ some (cell + g.t * k)
  singles_pass zero cell pos late h = replay-nil g cell ∙ ap some (omega arith)
  singles_pass (suc k) cell pos late h =
      replay-grant g (t0, 1) (singles k t0) cell (cell + g.t)
        (grant_single cell pos late (omega arith))
      ∙ singles_pass k (cell + g.t) (omega arith) (omega arith) (omega arith)
      ∙ ap some (omega arith)

  pub singles_refused :
      (k cell : ℕ)
      → 0 < cell
      → t0 ≤ cell
      → t0 + g.tau + g.t < cell + g.t * suc k
      → replay g (singles (suc k) t0) cell ≡ none
  singles_refused zero cell pos late h =
      replay-refused g (t0, 1) [] cell (refuse_single cell pos (omega arith))
  singles_refused (suc k) cell pos late h = elim (Bool-cases (leb cell (t0 + g.tau))) [
    | inl fits ↦
        (replay-grant g (t0, 1) (singles (suc k) t0) cell (cell + g.t)
            (grant_single cell pos late (ground arith))
          ∙ singles_refused k (cell + g.t) (omega arith) (omega arith) (omega arith))
    | inr beyond ↦
        (replay-refused g (t0, 1) (singles (suc k) t0) cell (refuse_single cell pos (ground arith)))
  ]

  -- A key never seen before, with a burst of `b`: `b` single requests pass at one instant, and the
  -- next is refused.
  pub burst_fresh :
      (b : ℕ)
      → g.tau ≡ g.t * suc b
      → (replay g (singles (suc b) t0) 0 ≡ some (t0 + g.t + g.tau))
        × (replay g (singles (suc (suc b)) t0) 0 ≡ none)
  burst_fresh b e = (
    replay-grant g (t0, 1) (singles b t0) 0 (t0 + 2 * g.t) first
        ∙ singles_pass b (t0 + 2 * g.t) (omega (arith, sound.weighs)) (omega arith) (omega arith)
        ∙ ap some (omega arith),
    replay-grant g (t0, 1) (singles (suc b) t0) 0 (t0 + 2 * g.t) first
        ∙ singles_refused b (t0 + 2 * g.t) (omega (arith, sound.weighs)) (omega arith)
            (omega (arith, sound.weighs)),
  )
    where
      first : grant g (t0, 1) 0 ≡ some (t0 + 2 * g.t)
      first =
          ground
            (arith, grant_cases g horizon sound (t0, 1) 0 single-IsAllowed, sound.holds, sound.fits)

  -- A key whose state has run out by `t0`, with a burst of `b`: `b + 1` single requests pass at one
  -- instant, one more than the burst, and the next is refused.
  pub burst_idle :
      (b cell : ℕ)
      → g.tau ≡ g.t * b
      → 0 < cell
      → cell ≤ t0
      → (replay g (singles (suc b) t0) cell ≡ some (t0 + g.t + g.tau))
        × (replay g (singles (suc (suc b)) t0) cell ≡ none)
  burst_idle b cell e pos idle = (
    replay-grant g (t0, 1) (singles b t0) cell (t0 + g.t) first
        ∙ singles_pass b (t0 + g.t) (omega arith) (omega arith) (omega arith)
        ∙ ap some (omega arith),
    replay-grant g (t0, 1) (singles (suc b) t0) cell (t0 + g.t) first
        ∙ singles_refused b (t0 + g.t) (omega arith) (omega arith) (omega (arith, sound.weighs)),
  )
    where
      first : grant g (t0, 1) cell ≡ some (t0 + g.t)
      first = ground (arith, grant_cases g horizon sound (t0, 1) cell single-IsAllowed)

  singles_end :
      (k cell last : ℕ)
      → 0 < cell
      → t0 ≤ cell
      → replay g (singles k t0) cell ≡ some last
      → last ≡ cell + g.t * k
  singles_end zero cell last pos late e = ground (arith, replay-nil g cell)
  singles_end (suc k) cell last pos late e =
      let (next, p, q) = replay-cons g (t0, 1) (singles k t0) cell last e in
      let moved : next ≡ cell + g.t =
        ground (arith, grant_cases g horizon sound (t0, 1) cell single-IsAllowed) in
      omega (arith, singles_end k next last (omega arith) (omega arith) q)

  -- If single requests at one instant all pass, one request of their number of units passes too and
  -- leaves the same state.
  pub weighted_of_singles :
      (k cell last : ℕ)
      → IsAllowed g horizon (t0, suc k)
      → replay g (singles (suc k) t0) cell ≡ some last
      → grant g (t0, suc k) cell ≡ some last
  weighted_of_singles k cell last h e =
      let (next, p, q) = replay-cons g (t0, 1) (singles k t0) cell last e in
      let tat = measured g t0 (nonzero cell) in
      let moved : (tat ≤ t0 + g.tau) × (next ≡ max tat t0 + g.t) =
        ground (arith, grant_cases g horizon sound (t0, 1) cell single-IsAllowed) in
      let end : last ≡ next + g.t * k =
        singles_end k next last (omega (arith, sound.weighs)) (omega arith) q in
      ground (arith, grant_cases g horizon sound (t0, suc k) cell h)

  -- On a state that a single unit still fits, a request of several units passes where as many single
  -- ones, made at the same instant, do not.
  pub weighted_passes :
      (k cell : ℕ)
      → IsAllowed g horizon (t0, suc k)
      → 0 < cell
      → t0 ≤ cell
      → cell ≤ t0 + g.tau
      → t0 + g.tau < cell + g.t * k
      → (grant g (t0, suc k) cell ≡ some (cell + g.t * suc k))
        × (replay g (singles (suc k) t0) cell ≡ none)
  weighted_passes k cell h pos late one more = (
    ground (arith, grant_cases g horizon sound (t0, suc k) cell h),
    singles_refused k cell pos late (omega arith),
  )
