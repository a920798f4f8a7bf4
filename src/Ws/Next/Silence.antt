-- ===== src/Ws/Next/Silence.antt =====
-- A peer that stays silent: a ping of ours, and then a new connection.
use v_exchanges.Prelude.{ℕ, ◌<◌, ◌≡◌, refl, true, none, some, [], ◌∷◌, arith}
use v_exchanges.Retry.Float.{Float}
use v_exchanges.Ws.Messages.{Protocol, timed_out, wrote}
use v_exchanges.Ws.Connection.{Dial, WsConnection, try_flush_outbox, choose_timeout}
use v_exchanges.Ws.Next
use v_exchanges.Ws.Next.{Outcome, Tick, renew, on_event, turn, and_then, read_loop}

module _ (fl : Float) (p : Protocol) where
  -- A connection that is open and owes nothing: no message is queued or in flight.
  pub record IsIdle (c : WsConnection fl p) : Type 0 where
    pub parked : c.sink ≡ true
    pub quiet : c.outbox ≡ []
    pub answered : c.last_unanswered_communication ≡ none
    pub patient : 0 < c.config.response_timeout

  abbrev pub silent : ℕ → Dial fl p → Tick fl p
  silent now dial = record { now = now; event = timed_out; dial = dial }

  abbrev pub written : ℕ → Dial fl p → Tick fl p
  written now dial = record { now = now; event = wrote none; dial = dial }

  -- The connection behind a ping that was sent at `now` and written.
  abbrev pub pinged : ℕ → WsConnection fl p → WsConnection fl p
  pinged now c = record c {
    sink = true;
    outbox = [];
    last_unanswered_communication = some now;
    fu = record (c.fu) { writer = none };
  }

  silence-pings :
      (now : ℕ) (dial : Dial fl p) (c : WsConnection fl p)
      → IsIdle c
      → turn fl p (silent now dial) [] c ≡ Next.pending [] (record c { outbox = p.ping ∷ [] })
  unfolding turn try_flush_outbox choose_timeout on_event
  silence-pings now dial c h = ground (arith, h.parked, h.quiet, h.answered)

  ping-flushed :
      (now : ℕ) (dial : Dial fl p) (c : WsConnection fl p)
      → IsIdle c
      → turn fl p (written now dial) [] (record c { outbox = p.ping ∷ [] })
        ≡ Next.pending [] (pinged now c)
  unfolding turn try_flush_outbox choose_timeout on_event
  ping-flushed now dial c h = ground (arith, h.parked, h.patient)

  silence-reconnects :
      (sent now : ℕ) (dial : Dial fl p) (c : WsConnection fl p)
      → turn fl p (silent now dial) [] (pinged sent c) ≡ renew fl p dial [] (pinged sent c)
  unfolding turn try_flush_outbox choose_timeout on_event
  silence-reconnects sent now dial c = ground arith

  then-pending : (o : Outcome fl p) → and_then fl p o (λ content c. Next.pending content c) ≡ o
  then-pending (Next.returned content c) = refl
  then-pending (Next.errored e c) = refl
  then-pending (Next.pending content c) = refl
  then-pending (Next.cancelled content c) = refl
  then-pending Next.panicked = refl

  -- On an idle connection, a first timeout sends a ping, and if that is written and nothing is heard
  -- until the next timeout, or none is left to wait for, the connection is renewed.
  pub silence-renews :
      (t₁ t₂ t₃ : ℕ) (d₁ d₂ d₃ : Dial fl p) (c : WsConnection fl p)
      → IsIdle c
      → read_loop fl p (silent t₁ d₁ ∷ written t₂ d₂ ∷ silent t₃ d₃ ∷ []) [] c
        ≡ renew fl p d₃ [] (pinged t₂ c)
  unfolding read_loop
  silence-renews t₁ t₂ t₃ d₁ d₂ d₃ c h =
      rw (silence-pings t₁ d₁ c h, ping-flushed t₂ d₂ c h, silence-reconnects t₂ t₃ d₃ c)
        (then-pending (renew fl p d₃ [] (pinged t₂ c)))
