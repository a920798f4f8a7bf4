-- ===== src/Ws/Next/Wiring.antt =====
-- The futures of a connection between the calls of `next`, and what a dropped call leaves behind.
use v_exchanges.Prelude.{
  ℕ, ◌≡◌, ◌⊎◌, inl, inr, true, false, none, [], ◌++◌, if◌then◌else◌, is_none, is_empty, arith,
  Bool-cases, Result-cases,
}
use v_exchanges.Retry.Float.{Float}
use v_exchanges.Ws.Messages.{Protocol}
use v_exchanges.Ws.Connection.{
  Dial, WsConnection, try_flush_outbox, opened, greet, back_off, connect,
}
use v_exchanges.Ws.Batch
use v_exchanges.Ws.Batch.{Drain}
use v_exchanges.Ws.Next
use v_exchanges.Ws.Next.{Outcome}

module _ (fl : Float) (p : Protocol) where
  open p use {Value, Content, handle_auth}

  -- An open connection has one reader, one half of the sink (parked, or with the writer in flight),
  -- and one active-ping timer exactly if one is configured.
  abbrev pub IsWired : WsConnection fl p → Type 0
  IsWired c =
      (is_none c.connected_since ≡ true)
      ⊎ ((c.fu.readers ≡ 1)
          × (c.sink ≡ is_none c.fu.writer)
          × (c.fu.pings ≡ (if is_none c.config.active_ping_freq then 0 else 1)))

  -- A connection that has lost its sink: neither parked nor with a writer.
  abbrev pub IsStranded : WsConnection fl p → Type 0
  IsStranded c = (c.sink ≡ false) × (c.fu.writer ≡ none)

  -- What a call may end with: a batch that is not empty, an error, a wait that holds no content, or a
  -- drop that loses none, but may lose the sink.
  abbrev pub IsSettled : Outcome fl p → Type 0
  IsSettled (Next.returned content c) = IsWired c × (is_empty content ≡ false)
  IsSettled (Next.errored e c) = IsWired c
  IsSettled (Next.pending content c) = IsWired c × (content ≡ [])
  IsSettled (Next.cancelled content c) = (IsWired c ⊎ IsStranded c) × (content ≡ [])
  IsSettled Next.panicked = Unit {0}

  flush-IsWired :
      (now : ℕ) (c : WsConnection fl p) → IsWired c → IsWired (try_flush_outbox fl p now c)
  unfolding try_flush_outbox
  flush-IsWired now c h = ground arith

  opened-IsWired : (now : ℕ) (c : WsConnection fl p) → IsWired (opened fl p now c)
  opened-IsWired now c = ground arith

  greet-IsWired : (now : ℕ) (c : WsConnection fl p) → IsWired c → IsWired ((greet fl p now c).1)
  unfolding greet
  greet-IsWired now c h = elim (Result-cases ((handle_auth c.handler).0)) [
    | inl (messages, e) ↦
        rw (e, greet)
          (flush-IsWired now
            (record c { handler = (handle_auth c.handler).1; outbox = c.outbox ++ messages }) h)
    | inr (a, e) ↦ rw (e, greet) h
  ]

  back_off-IsWired :
      (dial : Dial fl p) (c : WsConnection fl p) → IsWired c → IsWired ((back_off fl p dial c).1)
  unfolding back_off
  back_off-IsWired dial c h = h

  -- `connect` leaves the connection wired, whether it opens, is refused, or fails to authenticate.
  pub connect-IsWired :
      (dial : Dial fl p) (c : WsConnection fl p) → IsWired c → IsWired ((connect fl p dial c).1)
  unfolding connect
  connect-IsWired dial c h = elim (Bool-cases dial.succeeds) [
    | inl e ↦
        rw (e, connect)
          (greet-IsWired dial.now (opened fl p dial.now c) (opened-IsWired dial.now c))
    | inr e ↦ rw (e, connect) (back_off-IsWired dial c h)
  ]

  -- Of the two halves of the sink there is exactly one, or there is no connection.
  abbrev IsHalved : WsConnection fl p → Type 0
  IsHalved c = (is_none c.connected_since ≡ true) ⊎ (c.sink ≡ is_none c.fu.writer)

  abbrev awake : WsConnection fl p → WsConnection fl p
  awake c = record c { reconnect_after = none }
