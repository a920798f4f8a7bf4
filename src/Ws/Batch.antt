-- ===== src/Ws/Batch.antt =====
-- The frames of one read, in `next` of v_exchanges_api_generics/src/ws.rs.
pub mod Feed
use v_exchanges.Prelude.{
  Bool, true, false, Option, none, some, List, [], ◌∷◌, ◌++◌, Result, ok, err, if◌then◌else◌,
}
use v_exchanges.Ws.Messages
use v_exchanges.Ws.Messages.{
  WsError, Protocol, Frame, text, ping, pong, close, binary, raw, failed, is_reconnecting, Answer,
}

module _ (p : Protocol) where
  open p use {Value, Message, Content, Handler, is_pong, handle_jrpc}

  pub record Drain : Type 0 where
    pub handler : Handler
    pub outbox : List Message
    pub content : List Content

  -- A batch ends at its last frame or at a terminal one, fails with the handler's error, or panics.
  pub data Drained : Type 0 where
    ended : Bool → Drain → Drained
    errored : WsError → Drain → Drained
    panicked : Drained

  -- What the handler answers to a value.
  abbrev pub answer : Value → Drain → Result WsError Drain
  answer value d =
      let (r, handler) = handle_jrpc value d.handler in
      elim r [
        | err e ↦ err e
        | ok a ↦ elim a [
          | Answer.response messages ↦
              ok (record d { handler = handler; outbox = d.outbox ++ messages })
          | Answer.content c ↦ ok (record d { handler = handler; content = d.content ++ c ∷ [] })
        ]
      ]

  abbrev pub answer_handler : Value → Drain → Drain
  answer_handler value d = record d { handler = (handle_jrpc value d.handler).1 }

  -- The `for` over the frames; `ended true` says that a terminal frame was met.
  unfoldable pub drain : List (Frame Value) → Drain → Drained
  drain [] d = ended false d
  drain (text none ∷ rest) d = panicked
  drain (text (some value) ∷ rest) d = elim (is_pong value) [
    | true ↦ drain rest d
    | false ↦ elim (answer value d) [
      | err e ↦ errored e (answer_handler value d)
      | ok d' ↦ drain rest d'
    ]
  ]
  drain (ping ∷ rest) d = drain rest d
  drain (pong ∷ rest) d = drain rest d
  drain (close ∷ rest) d = ended true d
  drain (binary ∷ rest) d = panicked
  drain (raw ∷ rest) d = panicked
  drain (failed e ∷ rest) d = elim (is_reconnecting e) [
    | none ↦ panicked
    | some true ↦ ended true d
    | some false ↦ drain rest d
  ]
