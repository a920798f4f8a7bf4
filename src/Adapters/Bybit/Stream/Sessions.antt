-- ===== src/Adapters/Bybit/Stream/Sessions.antt =====
-- Sessions of Bybit's streams: what is sent, and when the topics are asked for.
use v_exchanges.Prelude.{
  ℕ, ◌≡◌, ◌∙◌, sym, ap, refl, Text, Bool-cases, inl, inr, if◌then◌else◌, Bool, true, false, some,
  List, [], ◌∷◌, ◌++◌, ok, arith,
}
use mathlib.Core.List.{append-nil}
use v_exchanges.Ws.Messages
use v_exchanges.Ws.Messages.{response}
use v_exchanges.Adapters.Traits.{StreamConfig}
use v_exchanges.Adapters.Bybit.Options.{BybitOptions}
use v_exchanges.Adapters.Bybit.Stream
use v_exchanges.Adapters.Bybit.Stream.{
  Message, subscribe, BybitResponse, feedback, op_auth, ContentEvent, Libraries, handle_auth,
  handle_jrpc,
}

-- The topics that are asked for, of one message after the other.
abbrev pub asked : List Message → List (List Text)
asked [] = []
asked (subscribe topics ∷ rest) = topics ∷ asked rest
asked (_ ∷ rest) = asked rest

asked-append : (ms ns : List Message) → asked (ms ++ ns) ≡ asked ms ++ asked ns
asked-append [] ns = refl
asked-append (subscribe topics ∷ ms) ns = ap (λ x. topics ∷ x) (asked-append ms ns)
asked-append (Stream.auth k e s ∷ ms) ns = asked-append ms ns
asked-append (Stream.ping ∷ ms) ns = asked-append ms ns

module _ {Value Rest Url : Type 0} (lib : Libraries Value)
    (options : BybitOptions (StreamConfig Url Rest)) where
  open lib use {from_value}

  -- A value that says that the key was accepted.
  abbrev pub accepts : Value → Bool
  accepts value = elim (from_value value) [
    | ok r ↦ elim r [
      | feedback success _ op ↦ elim op [ op_auth ↦ success | _ ↦ false ]
      | _ ↦ false
    ]
    | _ ↦ false
  ]

  -- All topics of the options, once for each value that accepted the key.
  abbrev pub topics_of : List Value → List (List Text)
  topics_of [] = []
  topics_of (v ∷ vs) =
      let rest = topics_of vs in if accepts v then options.ws_topics ∷ rest else rest

  topics_of-append : (vs ws : List Value) → topics_of (vs ++ ws) ≡ topics_of vs ++ topics_of ws
  topics_of-append [] ws = refl
  topics_of-append (v ∷ vs) ws = elim (Bool-cases (accepts v)) [
    | inl a ↦ rw a (ap (λ x. options.ws_topics ∷ x) (topics_of-append vs ws))
    | inr a ↦ rw a (topics_of-append vs ws)
  ]

  -- The values that a connection has read so far, and the messages that it has sent for them.
  pub data Session : List Value → List Message → Type 0 where
    opened :
        {messages : List Message} (now : ℕ)
        → handle_auth lib options now ≡ ok messages
        → Session [] messages
    answered :
        {values : List Value} {messages reply : List Message} (value : Value)
        → Session values messages
        → handle_jrpc lib options value ≡ some (ok (response reply))
        → Session (values ++ value ∷ []) (messages ++ reply)
    surfaced :
        {values : List Value} {messages : List Message} (value : Value) (event : ContentEvent Value)
        → Session values messages
        → handle_jrpc lib options value ≡ some (ok (Messages.content event))
        → Session (values ++ value ∷ []) messages

  handle_auth-subscribes :
      (now : ℕ) (messages : List Message)
      → options.ws_auth ≡ true
      → handle_auth lib options now ≡ ok messages
      → asked messages ≡ []
  unfolding handle_auth
  handle_auth-subscribes now messages auth h = ground arith

  handle_jrpc-subscribes :
      (value : Value) (reply : List Message)
      → handle_jrpc lib options value ≡ some (ok (response reply))
      → asked reply ≡ topics_of (value ∷ [])
  unfolding handle_jrpc
  handle_jrpc-subscribes value reply h = ground arith

  handle_jrpc-surfaces :
      (value : Value) (event : ContentEvent Value)
      → handle_jrpc lib options value ≡ some (ok (Messages.content event))
      → topics_of (value ∷ []) ≡ []
  unfolding handle_jrpc
  handle_jrpc-surfaces value event h = ground arith

  -- A stream that authenticates asks for nothing before the service has accepted its key, and at
  -- once when it does: what it has asked for are all topics of the options, once for each value read
  -- that accepted the key.
  pub Session-subscribes :
      (values : List Value) (messages : List Message)
      → options.ws_auth ≡ true
      → Session values messages
      → asked messages ≡ topics_of values
  Session-subscribes values messages auth (opened now h) =
      handle_auth-subscribes now messages auth h
  Session-subscribes _ _ auth (answered {values} {messages} {reply} value s h) =
      asked-append messages reply
      ∙ ap (λ x. x ++ asked reply) (Session-subscribes values messages auth s)
      ∙ ap (λ x. topics_of values ++ x) (handle_jrpc-subscribes value reply h)
      ∙ sym (topics_of-append values (value ∷ []))
  Session-subscribes _ messages auth (surfaced {values} value event s h) =
      Session-subscribes values messages auth s
      ∙ sym (append-nil (topics_of values))
      ∙ ap (λ x. topics_of values ++ x) (sym (handle_jrpc-surfaces value event h))
      ∙ sym (topics_of-append values (value ∷ []))
