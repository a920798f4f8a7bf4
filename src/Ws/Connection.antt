-- ===== src/Ws/Connection.antt =====
-- The state of `WsConnection` and its upkeep (v_exchanges_api_generics/src/ws.rs): flushing, timeouts,
-- connecting and reconnecting. The clock, the jitter and the outcome of a dial are arguments.
use v_exchanges.Prelude.{
  ℕ, suc, ◌+◌, Bool, true, false, not, Option, none, some, List, [], ◌++◌, Result, ok, err,
  if◌then◌else◌, ltb, ◌==◌, codes, is_none, is_empty,
}
use v_exchanges.Retry.Float.{Float}
use v_exchanges.Retry.Backoff.{ExponentialBackoff, next_duration, of_config, reset}
use v_exchanges.Ws.Messages
use v_exchanges.Ws.Messages.{WsError, Protocol}
use v_exchanges.Ws.Config.{WsConfig}

-- The futures that fly: how many readers, the writer's messages if one is in flight, how many
-- active-ping timers.
pub record Futures (Message : Type 0) : Type 0 where
  pub readers : ℕ
  pub writer : Option (List Message)
  pub pings : ℕ

abbrev pub no_futures : {Message : Type 0} → Futures Message
no_futures = record { readers = 0; writer = none; pings = 0 }

-- The awaits of a reconnection: of the `Close` on the old sink, and of the new connection.
pub data Await : Type 0 where
  closing dialing : Await

module _ (fl : Float) (p : Protocol) where
  open p use {Message, Handler, handle_auth}

  pub record WsConnection : Type 0 where
    pub config : WsConfig fl
    pub handler : Handler
    pub backoff : ExponentialBackoff fl
    pub reconnect_after : Option ℕ
    pub fu : Futures Message
    -- Whether the sink is parked here.
    pub sink : Bool
    pub outbox : List Message
    pub connected_since : Option ℕ
    pub last_unanswered_communication : Option ℕ
    pub pending_reconnect : Bool

  -- `try_new`, behind the handler's configuration.
  unfoldable pub try_new : WsConfig fl → Handler → Result WsError WsConnection
  try_new config handler = elim (of_config fl config.reconnect) [
    | err e ↦ err (Messages.other (codes "Invalid reconnect backoff configuration"))
    | ok backoff ↦ ok (record {
      config = config;
      handler = handler;
      backoff = backoff;
      reconnect_after = none;
      fu = no_futures;
      sink = false;
      outbox = [];
      connected_since = none;
      last_unanswered_communication = none;
      pending_reconnect = false;
    })
  ]

  abbrev pub arm_reader : WsConnection → WsConnection
  arm_reader c = record c { fu = record (c.fu) { readers = suc c.fu.readers } }

  abbrev pub arm_ping : WsConnection → WsConnection
  arm_ping c = record c {
    fu = record (c.fu) {
      pings = if is_none c.config.active_ping_freq then c.fu.pings else suc c.fu.pings;
    };
  }

  unfoldable pub try_flush_outbox : ℕ → WsConnection → WsConnection
  try_flush_outbox now c = if not c.sink then c else if is_empty c.outbox then c else record c {
    sink = false;
    outbox = [];
    last_unanswered_communication = some now;
    fu = record (c.fu) { writer = some c.outbox };
  }

  unfoldable pub choose_timeout : ℕ → WsConnection → Option ℕ
  choose_timeout now c = elim c.last_unanswered_communication [
    | some last ↦
        (if ltb now (last + c.config.response_timeout)
          then some c.config.response_timeout
          else none)
    | none ↦ some c.config.message_timeout
  ]

  -- A dial: whether it succeeds, the time, the jitter of the backoff if it fails, and the await at
  -- which the caller drops it, if one does.
  pub record Dial : Type 0 where
    pub succeeds : Bool
    pub now : ℕ
    pub jitter : ℕ
    pub dropped : Option Await

  -- A connection that has just been opened.
  abbrev pub opened : ℕ → WsConnection → WsConnection
  opened now c = record (arm_ping (arm_reader (record c { fu = no_futures; sink = true }))) {
    outbox = [];
    last_unanswered_communication = none;
    connected_since = some now;
  }

  -- The authentication and subscription messages of a connection that was opened.
  unfoldable pub greet : ℕ → WsConnection → Result WsError (Unit {0}) × WsConnection
  unfolding try_flush_outbox
  greet now c =
      let (auth, handler) = handle_auth c.handler in
      let c₁ = record c { handler = handler } in
      elim auth [
        | err e ↦ (err e, c₁)
        | ok messages ↦
            (let c₂ = try_flush_outbox now (record c₁ { outbox = c₁.outbox ++ messages }) in
              (ok tt, record c₂ { reconnect_after = none; backoff = reset fl c₂.backoff }))
      ]

  -- A dial that failed.
  unfoldable pub back_off : Dial → WsConnection → Result WsError (Unit {0}) × WsConnection
  back_off dial c =
      let (delay, backoff) = next_duration fl dial.jitter c.backoff in
      (
        err (Messages.tungstenite (codes "connection failed")),
        record c {
          backoff = backoff;
          reconnect_after = if delay == 0 then c.reconnect_after else some (dial.now + delay);
        },
      )

  unfoldable pub connect : Dial → WsConnection → Result WsError (Unit {0}) × WsConnection
  unfolding greet back_off
  connect dial c = if dial.succeeds then greet dial.now (opened dial.now c) else back_off dial c

  -- The sink is taken for the best-effort `Close`, which is awaited if there was one.
  abbrev pub taken : WsConnection → WsConnection
  taken c = record c { reconnect_after = none; sink = false }

  -- The old connection dropped.
  abbrev pub closed : WsConnection → WsConnection
  closed c = record (taken c) { fu = no_futures; connected_since = none }

  -- A reconnection that is not dropped.
  unfoldable pub reconnect : Dial → WsConnection → Result WsError (Unit {0}) × WsConnection
  unfolding connect
  reconnect dial c = connect dial (closed c)

  -- What a reconnection leaves that is dropped at an await. Without a sink there is no `Close` to
  -- wait for, and it is dropped at the dial.
  unfoldable pub abandoned : Await → WsConnection → WsConnection
  abandoned closing c = if c.sink then taken c else closed c
  abandoned dialing c = closed c
