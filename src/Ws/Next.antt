-- ===== src/Ws/Next.antt =====
-- `next` of v_exchanges_api_generics/src/ws.rs: what a call does first, and the loop over the
-- events. The clock, the events and the outcomes of the dials are arguments.
pub mod Wiring
pub mod Silence
pub mod Opening
pub mod Stranded
use v_exchanges.Prelude.{
  ℕ, ◌+◌, ◌-◌, Bool, true, false, not, ◌&&◌, Option, none, some, List, [], ◌∷◌, ◌++◌, Result, ok,
  err, if◌then◌else◌, ltb, is_none, is_empty,
}
use v_exchanges.Retry.Float.{Float}
use v_exchanges.Ws.Messages.{
  WsError, ReadError, Protocol, Frame, Event, timed_out, drained, ping_due, wrote, read,
  is_reconnecting,
}
use v_exchanges.Ws.Config.{WsConfig}
use v_exchanges.Ws.Connection.{
  Futures, Dial, WsConnection, arm_reader, arm_ping, try_flush_outbox, choose_timeout, connect,
  reconnect, abandoned,
}
use v_exchanges.Ws.Batch
use v_exchanges.Ws.Batch.{Drain, Drained, drain}

module _ (fl : Float) (p : Protocol) where
  open p use {Value, Message, Content, active_ping}

  -- What a call returns; `pending` is one that waits on, and `cancelled` one that was dropped while
  -- it connected, both with the content that was collected.
  pub data Outcome : Type 0 where
    returned : List Content → WsConnection fl p → Outcome
    errored : WsError → WsConnection fl p → Outcome
    pending : List Content → WsConnection fl p → Outcome
    cancelled : List Content → WsConnection fl p → Outcome
    panicked : Outcome

  -- One turn of the loop: the time, what is awaited, and a dial if there is one.
  pub record Tick : Type 0 where
    pub now : ℕ
    pub event : Event Value
    pub dial : Dial fl p

  -- `self.reconnect().await?; continue`.
  unfoldable pub renew : Dial fl p → List Content → WsConnection fl p → Outcome
  renew dial content c = elim dial.dropped [
    | some await ↦ cancelled content (abandoned fl p await c)
    | none ↦
        (let (r, c') = reconnect fl p dial c in
          elim r [ err e ↦ errored e c' | ok _ ↦ pending content c' ])
  ]

  -- The end of a batch: discarded upkeep and a reconnection if it was terminal.
  unfoldable pub settle : Dial fl p → WsConnection fl p → Drained p → Outcome
  settle dial c Batch.panicked = panicked
  settle dial c (Batch.errored e d) =
      errored e (record c { handler = d.handler; outbox = d.outbox })
  settle dial c (Batch.ended true d) =
      if is_empty d.content
      then renew dial d.content (record c { handler = d.handler; outbox = [] })
      else returned d.content
          (record c { handler = d.handler; outbox = []; pending_reconnect = true })
  settle dial c (Batch.ended false d) =
      if is_empty d.content
      then pending d.content (record c { handler = d.handler; outbox = d.outbox })
      else returned d.content (record c { handler = d.handler; outbox = d.outbox })

  -- The reader's future is gone when it fires.
  abbrev pub heard : WsConnection fl p → WsConnection fl p
  heard c = record c { fu = record (c.fu) { readers = c.fu.readers - 1 } }

  abbrev pub answered : WsConnection fl p → WsConnection fl p
  answered c = record (arm_reader fl p (heard c)) { last_unanswered_communication = none }

  abbrev pub parked : WsConnection fl p → WsConnection fl p
  parked c = record c { sink = true; fu = record (c.fu) { writer = none } }

  abbrev pub beaten : WsConnection fl p → WsConnection fl p
  beaten c = arm_ping fl p (record c {
    fu = record (c.fu) { pings = c.fu.pings - 1 };
    outbox = c.outbox ++ active_ping c.handler;
  })

  unfoldable pub on_event : Event Value → Dial fl p → List Content → WsConnection fl p → Outcome
  on_event timed_out dial content c =
      if not (is_empty content)
      then returned content c
      else if not (is_none c.last_unanswered_communication)
      then renew dial content c
      else pending content (record c { outbox = c.outbox ++ p.ping ∷ [] })
  on_event drained dial content c = renew dial content c
  on_event (wrote none) dial content c = pending content (parked c)
  on_event (wrote (some e)) dial content c = elim (is_reconnecting e) [
    | none ↦ panicked
    | some true ↦ renew dial content (parked c)
    | some false ↦ pending content (parked c)
  ]
  on_event ping_due dial content c = pending content (beaten c)
  on_event (read []) dial content c =
      if not (is_empty content)
      then returned content (record (heard c) { pending_reconnect = true })
      else renew dial content (heard c)
  on_event (read (frame ∷ frames)) dial content c = settle dial (answered c) (
      drain p (frame ∷ frames)
        (record { handler = c.handler; outbox = c.outbox; content = content }))

  unfoldable pub turn : Tick → List Content → WsConnection fl p → Outcome
  turn t content c =
      let c₁ = try_flush_outbox fl p t.now c in
      elim (choose_timeout fl p t.now c₁) [
        | none ↦ renew t.dial content c₁
        | some _ ↦ on_event t.event t.dial content c₁
      ]

  -- What follows unless the call ends.
  abbrev pub and_then : Outcome → (List Content → WsConnection fl p → Outcome) → Outcome
  and_then (returned content c) k = returned content c
  and_then (errored e c) k = errored e c
  and_then (pending content c) k = k content c
  and_then (cancelled content c) k = cancelled content c
  and_then panicked k = panicked

  unfoldable pub read_loop : List Tick → List Content → WsConnection fl p → Outcome
  read_loop [] content c = pending content c
  read_loop (t ∷ ts) content c =
      and_then (turn t content c) (λ content' c'. read_loop ts content' c')

  -- A call: whether it is dropped in the wait of the backoff, the time after it, and the dials of
  -- the deferred reconnection, the refresh and the first connection.
  pub record Call : Type 0 where
    pub dropped : Bool
    pub now : ℕ
    pub deferred : Dial fl p
    pub refresh : Dial fl p
    pub first : Dial fl p
    pub ticks : List Tick

  abbrev pub is_due : ℕ → WsConnection fl p → Bool
  is_due now c = elim c.connected_since [
    | none ↦ false
    | some since ↦ ltb (since + c.config.refresh_after) now
  ]

  -- The three conditions before the loop, each with the dial it may make.
  unfoldable pub resume : Call → WsConnection fl p → Outcome
  resume call c =
      if c.pending_reconnect
      then renew call.deferred [] (record c { pending_reconnect = false })
      else pending [] c

  unfoldable pub refresh : Call → WsConnection fl p → Outcome
  refresh call c = if is_due call.now c then renew call.refresh [] c else pending [] c

  -- `self.connect().await?`; nothing has changed where it is dropped.
  unfoldable pub open_first : Call → WsConnection fl p → Outcome
  open_first call c =
      if is_none c.connected_since
      then elim call.first.dropped [
        | some _ ↦ cancelled [] c
        | none ↦
            (let (r, c') = connect fl p call.first c in
              elim r [ err e ↦ errored e c' | ok _ ↦ pending [] c' ])
      ]
      else pending [] c

  unfoldable pub next : Call → WsConnection fl p → Outcome
  next call c =
      let c₁ = record c { reconnect_after = none } in
      if call.dropped && not (is_none c.reconnect_after)
      then pending [] c₁
      else and_then (resume call c₁) (λ _ c₂.
        and_then (refresh call c₂)
          (λ _ c₃. and_then (open_first call c₃) (λ _ c₄. read_loop call.ticks [] c₄)))
