-- ===== src/Ratelimiter/Gcra/Replay.antt =====
-- Runs of granted requests on one state cell, and the rate that they keep.
use v_exchanges.Prelude.{
  ℕ, ◌+◌, ◌*◌, ◌≤◌, ◌<◌, ◌≡◌, refl, ap, ◌⊎◌, inl, inr, max, List, [], ◌∷◌, Option, none, some, ok,
  err, arith, saturating_mul, Option-cases,
}
use v_exchanges.Ratelimiter.Nanos
use v_exchanges.Ratelimiter.Nanos.{Nanos}
use v_exchanges.Ratelimiter.Gcra.{Gcra, decide, measured}
use v_exchanges.Ratelimiter.Gcra.Decision.{IsSound, decide_cases}
use v_exchanges.Ratelimiter.StateStore.{nonzero}

-- A request: its time since the limiter's start, and its number of weight units.
abbrev pub Request : Type 0
Request = Nanos × ℕ

-- What one request does to a cell: its new content, or none for a refusal.
unfoldable pub grant : Gcra → Request → ℕ → Option ℕ
grant g (t0, n) cell = elim (decide g 0 (Nanos.mul g.t n) t0 (nonzero cell)) [
  | ok (_, next) ↦ some next
  | err _ ↦ none
]

-- Requests that are all granted, oldest first, and the cell behind the last.
unfoldable pub replay : Gcra → List Request → ℕ → Option ℕ
replay g [] cell = some cell
replay g (r ∷ rest) cell = elim (grant g r cell) [ none ↦ none | some next ↦ replay g rest next ]

abbrev pub units : List Request → ℕ
units [] = 0
units ((_, n) ∷ rest) = n + units rest

-- A request up to the horizon, of a weight that the assertion of `test_and_update_n` lets through.
abbrev pub IsAllowed : Gcra → ℕ → Request → Type 0
IsAllowed g horizon (t0, n) = (t0 ≤ horizon) × (saturating_mul g.t n ≤ g.tau)

abbrev pub AllAllowed : Gcra → ℕ → List Request → Type 0
AllAllowed g horizon [] = Unit {0}
AllAllowed g horizon (r ∷ rest) = IsAllowed g horizon r × AllAllowed g horizon rest

-- The first of a run of grants.
pub replay-cons :
    (g : Gcra) (r : Request) (rest : List Request) (cell last : ℕ)
    → replay g (r ∷ rest) cell ≡ some last
    → (next : ℕ) × (grant g r cell ≡ some next) × (replay g rest next ≡ some last)
unfolding replay
replay-cons g r rest cell last e = elim (Option-cases (grant g r cell)) [
  | inl refused ↦ cc
  | inr (next, p) ↦ (next, p, cc)
]

pub replay-grant :
    (g : Gcra) (r : Request) (rest : List Request) (cell next : ℕ)
    → grant g r cell ≡ some next
    → replay g (r ∷ rest) cell ≡ replay g rest next
unfolding replay
replay-grant g r rest cell next e = rw (e, replay)

pub replay-refused :
    (g : Gcra) (r : Request) (rest : List Request) (cell : ℕ)
    → grant g r cell ≡ none
    → replay g (r ∷ rest) cell ≡ none
unfolding replay
replay-refused g r rest cell e = rw (e, replay)

pub replay-nil : (g : Gcra) (cell : ℕ) → replay g [] cell ≡ some cell
unfolding replay
replay-nil g cell = refl

module _ (g : Gcra) (horizon : ℕ) (sound : IsSound g horizon) where
  -- The assertion keeps the weight's product from wrapping.
  pub mul-of_IsAllowed :
      (r : Request) → IsAllowed g horizon r → (Nanos.mul g.t r.1 ≡ g.t * r.1) × (g.t * r.1 ≤ g.tau)
  mul-of_IsAllowed (t0, n) (_, h) =
      let fits : g.t * n ≤ g.tau = omega (arith, sound.fits) in (omega (arith, sound.fits), fits)

  -- A request is granted exactly when the cell is at most the burst ahead of its time.
  pub grant_cases :
      (r : Request) (cell : ℕ)
      → IsAllowed g horizon r
      → let tat = measured g r.0 (nonzero cell) in
        ((tat ≤ r.0 + g.tau) × (grant g r cell ≡ some (max tat r.0 + g.t * r.1)))
        ⊎ ((r.0 + g.tau < tat) × (grant g r cell ≡ none))
  unfolding grant
  grant_cases (t0, n) cell h =
      let (e, w) = mul-of_IsAllowed (t0, n) h in
      elim (decide_cases g 0 (Nanos.mul g.t n) t0 horizon sound (nonzero cell) h.0 (omega arith)) [
        | inl (le, p) ↦ inl (
          le,
          rw (p, grant) (ap some (ap (λ (k : ℕ). max (measured g t0 (nonzero cell)) t0 + k) e)),
        )
        | inr (lt, p) ↦ inr (lt, rw (p, grant) refl)
      ]

  -- A grant moves the cell by the weight at least, and past the request's time by as much.
  pub grant_grows :
      (r : Request) (cell : ℕ) {next : ℕ}
      → IsAllowed g horizon r
      → grant g r cell ≡ some next
      → (cell + g.t * r.1 ≤ next) × (r.0 + g.t * r.1 ≤ next) × (cell ≤ r.0 + g.tau)
  grant_grows (t0, n) cell h e = ground (arith, grant_cases (t0, n) cell h, sound.holds)

  pub replay_grows :
      (log : List Request) (cell last : ℕ)
      → AllAllowed g horizon log
      → replay g log cell ≡ some last
      → cell + g.t * units log ≤ last
  unfolding replay
  replay_grows [] cell last h e = ground arith
  replay_grows (r ∷ rest) cell last h e =
      let (next, p, q) = replay-cons g r rest cell last e in
      omega (arith, grant_grows r cell h.0 p, replay_grows rest next last h.1 q)

  -- The rate that is kept: over any run of grants on one cell, whatever it held before, the weight of
  -- all requests but the last fits into the time from the first request to the last, plus one burst.
  pub rate_bound :
      (first : Request) (mid : List Request) (final : Request) (cell before after : ℕ)
      → AllAllowed g horizon (first ∷ mid)
      → IsAllowed g horizon final
      → replay g (first ∷ mid) cell ≡ some before
      → grant g final before ≡ some after
      → first.0 + g.t * units (first ∷ mid) ≤ final.0 + g.tau
  rate_bound first mid final cell before after h k e f =
      let (next, p, q) = replay-cons g first mid cell before e in
      omega (
        arith,
        grant_grows first cell h.0 p,
        replay_grows mid next before h.1 q,
        grant_grows final before k f,
      )
