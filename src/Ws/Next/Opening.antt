-- ===== src/Ws/Next/Opening.antt =====
-- What a dial leaves behind, whether it succeeds or fails.
use v_exchanges.Prelude.{
  ℕ, ◌+◌, ◌≤◌, ◌≡◌, refl, true, false, none, some, List, [], ◌∷◌, ◌++◌, ok, arith, ◌⊎◌,
}
use v_exchanges.Retry.Float.{Float}
use v_exchanges.Retry.Backoff.{reset, from_millis}
use v_exchanges.Retry.Backoff.Bounds.{IsValid, next_duration-IsValid}
use v_exchanges.Ws.Messages.{Protocol}
use v_exchanges.Ws.Connection.{
  Dial, WsConnection, try_flush_outbox, greet, back_off, opened, connect, reconnect,
}

append_nil : {A : Type 0} (xs : List A) → xs ++ [] ≡ xs
append_nil [] = refl
append_nil (x ∷ xs) = rw (append_nil xs) refl

module _ (fl : Float) (p : Protocol) where
  open p use {Value, Message, Content, handle_auth}

  -- What is in flight or queued for an open connection.
  abbrev pub owed : WsConnection fl p → List Message
  owed c = elim c.fu.writer [ none ↦ c.outbox | some messages ↦ messages ++ c.outbox ]

  greet-opens :
      (now : ℕ) (messages : List Message) (c : WsConnection fl p)
      → c.sink ≡ true
      → c.fu.writer ≡ none
      → c.outbox ≡ []
      → (handle_auth c.handler).0 ≡ ok messages
      → let (r, c') = greet fl p now c in
        (r ≡ ok tt)
        × (c'.connected_since ≡ c.connected_since)
        × (c'.reconnect_after ≡ none)
        × (c'.backoff ≡ reset fl c.backoff)
        × (owed c' ≡ messages)
  unfolding greet try_flush_outbox
  greet-opens now [] c s w o e = ground (arith, s, w, o, e)
  greet-opens now (m ∷ ms) c s w o e = ground (arith, s, w, o, e, append_nil ms)

  -- A dial that succeeds, on a handler that authenticates, starts a connection at the time of the
  -- dial, drops the wait and resets the backoff, and owes exactly the handler's messages.
  pub connect-opens :
      (dial : Dial fl p) (messages : List Message) (c : WsConnection fl p)
      → dial.succeeds ≡ true
      → (handle_auth c.handler).0 ≡ ok messages
      → let (r, c') = connect fl p dial c in
        (r ≡ ok tt)
        × (c'.connected_since ≡ some dial.now)
        × (c'.reconnect_after ≡ none)
        × (c'.backoff ≡ reset fl c.backoff)
        × (owed c' ≡ messages)
  unfolding connect
  connect-opens dial messages c h e =
      rw (h, connect)
        (greet-opens dial.now messages (opened fl p dial.now c) (ground arith) (ground arith)
          (ground arith) (ground (arith, e)))

  -- From a valid backoff, and with a jitter within its bound, a dial that fails leaves no wait
  -- longer than the backoff's largest delay and jitter together, and keeps the backoff valid.
  pub reconnect-waits :
      (dial : Dial fl p) (c : WsConnection fl p)
      → dial.succeeds ≡ false
      → IsValid fl c.backoff
      → dial.jitter ≤ c.backoff.jitter_ms
      → let (r, c') = reconnect fl p dial c in
        (c'.connected_since ≡ none)
        × IsValid fl c'.backoff
        × ((c'.reconnect_after ≡ none)
            ⊎ ((until : ℕ) × (c'.reconnect_after ≡ some until)
                × (until ≤ dial.now + (c.backoff.delay_max + from_millis c.backoff.jitter_ms))))
  unfolding reconnect connect back_off
  reconnect-waits dial c h v j =
      ground (arith, h, next_duration-IsValid fl dial.jitter c.backoff j v)
