-- ===== src/Ratelimiter/Interleaving.antt =====
-- Several threads on one `InMemoryState` (v_exchanges_api_generics/src/ratelimiter/mod.rs): each
-- loads the cell, applies the GCRA decision, and stores by `compare_exchange_weak`. The interleaving
-- is a sequence of steps that the environment chooses; the log of grants is a ghost.
use v_exchanges.Prelude.{
  ℕ, ◌+◌, ◌*◌, ◌≤◌, ◌≡◌, ◌∙◌, List, [], ◌∷◌, ◌++◌, none, some, if◌then◌else◌, ◌==◌, arith,
}
use v_exchanges.Ratelimiter.Gcra.{Gcra}
use v_exchanges.Ratelimiter.Gcra.Decision.{IsSound}
use v_exchanges.Ratelimiter.Gcra.Replay.{
  Request, grant, replay, replay-cons, replay-grant, replay-nil, units, IsAllowed, AllAllowed,
  rate_bound,
}

-- A thread is outside of the loop, or has read `prev` on behalf of a request.
pub data Thread : Type 0 where
  idle : Thread
  measuring : Request → ℕ → Thread

pub record World : Type 0 where
  pub cell : ℕ
  pub threads : ℕ → Thread
  pub log : List Request

abbrev pub put : ℕ → Thread → (ℕ → Thread) → ℕ → Thread
put i th threads j = if i == j then th else threads j

pub data Step (g : Gcra) (w : World) : World → Type 0 where
  load :
      (i : ℕ) (r : Request)
      → w.threads i ≡ idle
      → Step g w (record w { threads = put i (measuring r w.cell) w.threads })
  store :
      (i : ℕ) (r : Request) (next : ℕ)
      → w.threads i ≡ measuring r w.cell
      → grant g r w.cell ≡ some next
      → Step g w (record w { cell = next; threads = put i idle w.threads; log = w.log ++ r ∷ [] })
  retry :
      (i : ℕ) (r : Request) (prev next : ℕ)
      → w.threads i ≡ measuring r prev
      → grant g r prev ≡ some next
      → Step g w (record w { threads = put i (measuring r w.cell) w.threads })
  refuse :
      (i : ℕ) (r : Request) (prev : ℕ)
      → w.threads i ≡ measuring r prev
      → grant g r prev ≡ none
      → Step g w (record w { threads = put i idle w.threads })

pub data Reach (g : Gcra) (w : World) : World → Type 0 where
  here : Reach g w w
  step : {u v : World} → Reach g w u → Step g u v → Reach g w v

abbrev pub initial : World
initial = record { cell = 0; threads = λ _. idle; log = [] }

pub replay-append :
    (g : Gcra) (log : List Request) (r : Request) (cell before after : ℕ)
    → replay g log cell ≡ some before
    → grant g r before ≡ some after
    → replay g (log ++ r ∷ []) cell ≡ some after
replay-append g [] r cell before after e f =
    let moved : before ≡ cell = ground (arith, replay-nil g cell) in
    replay-grant g r [] cell after (rw moved at f) ∙ replay-nil g after
replay-append g (x ∷ log) r cell before after e f =
    let (next, p, q) = replay-cons g x log cell before e in
    replay-grant g x (log ++ r ∷ []) cell next p ∙ replay-append g log r next before after q f

replay-split :
    (g : Gcra) (log : List Request) (r : Request) (cell last : ℕ)
    → replay g (log ++ r ∷ []) cell ≡ some last
    → (before : ℕ) × (replay g log cell ≡ some before) × (grant g r before ≡ some last)
replay-split g [] r cell last e =
    let (next, p, q) = replay-cons g r [] cell last e in
    (cell, replay-nil g cell, ground (arith, replay-nil g next))
replay-split g (x ∷ log) r cell last e =
    let (next, p, q) = replay-cons g x (log ++ r ∷ []) cell last e in
    let (before, a, b) = replay-split g log r next last q in
    (before, replay-grant g x log cell next p ∙ a, b)

Step-replay :
    {g : Gcra} {w u : World}
    → Step g w u
    → replay g w.log 0 ≡ some w.cell
    → replay g u.log 0 ≡ some u.cell
Step-replay (load i r h) e = e
Step-replay {g} {w} (store i r next h p) e = replay-append g w.log r 0 w.cell next e p
Step-replay (retry i r prev next h p) e = e
Step-replay (refuse i r prev h p) e = e

-- Every interleaving of the threads leaves the cell as the grants, made one by one in the order of
-- their stores, would leave it, each of them granted.
pub Reach-replay : {g : Gcra} {w : World} → Reach g initial w → replay g w.log 0 ≡ some w.cell
Reach-replay {g} here = replay-nil g 0
Reach-replay (step r s) = Step-replay s (Reach-replay r)

-- However the threads interleave, the weight of all grants but the last fits into the time from the
-- first to the last, plus one burst.
pub interleaved_rate :
    {g : Gcra} {w : World} (horizon : ℕ) (first : Request) (mid : List Request) (final : Request)
    → IsSound g horizon
    → AllAllowed g horizon (first ∷ mid)
    → IsAllowed g horizon final
    → w.log ≡ (first ∷ mid) ++ final ∷ []
    → Reach g initial w
    → first.0 + g.t * units (first ∷ mid) ≤ final.0 + g.tau
interleaved_rate {g} {w} horizon first mid final sound h k e r =
    let (before, a, b) = replay-split g (first ∷ mid) final 0 w.cell (rw e at (Reach-replay r)) in
    rate_bound g horizon sound first mid final 0 before w.cell h k a b
