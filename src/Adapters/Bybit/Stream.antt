-- ===== src/Adapters/Bybit/Stream.antt =====
-- `BybitWsHandler` of v_exchanges_adapters/src/exchanges/bybit.rs. JSON, HMAC, the printing of
-- numbers and the time library are arguments. A panic (`todo!`, a time out of range) is `none`.
pub mod Sessions
use v_exchanges.Prelude.{
  ℕ, ℤ, ◌+◌, ◌%◌, Bool, true, false, not, ◌||◌, Option, none, some, List, [], ◌∷◌, ◌++◌, Result, ok,
  err, Text, codes, text_beq, u64_mod, if◌then◌else◌, ◌>>=◌,
}
use v_exchanges.Retry.Float.{Float}
use v_exchanges.Http.Errors.{ConstructAuthError, UrlError}
use v_exchanges.Ws.Config.{WsConfig, default, set_active_ping_freq}
use v_exchanges.Ws.Messages
use v_exchanges.Ws.Messages.{WsError, Answer, ContentEvent, response}
use v_exchanges.Adapters.Traits.{StreamConfig, stream_config}
use v_exchanges.Adapters.Bybit.Options.{
  BybitOptions, BybitWsUrlBase, ws_bybit, ws_bytick, ws_unmodified, ws_endpoint,
}

-- `bybit_ws_config`; `none` is the panic of `expect`.
unfoldable pub bybit_ws_config : (fl : Float) → Option (WsConfig fl)
unfolding default set_active_ping_freq
bybit_ws_config fl = set_active_ping_freq fl 20_000_000_000 (default fl)

-- The messages to the service, before they are written as JSON.
pub data Message : Type 0 where
  auth : Text → ℕ → Text → Message
  subscribe : List Text → Message
  ping : Message

pub data Operation : Type 0 where
  op_auth op_subscribe op_unsubscribe : Operation

pub record ContentResponse (Value : Type 0) : Type 0 where
  pub data_ : Value
  pub topic : Text
  pub ts : ℤ
  pub event_type : Text

pub data BybitResponse (Value : Type 0) : Type 0 where
  feedback : Bool → Text → Operation → BybitResponse Value
  content : ContentResponse Value → BybitResponse Value

pub record Libraries (Value : Type 0) : Type 0 where
  pub to_text : ℕ → Text
  pub hmac : Text → Text → Text
  pub from_value : Value → Result Text (BybitResponse Value)
  -- The value at "success", if it is a Boolean.
  pub success_field : Value → Option Bool
  pub from_millisecond : ℤ → Option ℤ

-- The endpoint of the options, unless the URL is left as it is.
abbrev pub endpoint_of : BybitWsUrlBase → Option BybitWsUrlBase
endpoint_of ws_unmodified = none
endpoint_of url = some url

module _ {Value Rest Url : Type 0} (lib : Libraries Value)
    (options : BybitOptions (StreamConfig Url Rest)) where
  open lib use {to_text, hmac, from_value, success_field, from_millisecond}

  unfoldable pub config : (Text → Option Url) → Option (Result UrlError (StreamConfig Url Rest))
  config parse =
      stream_config parse (endpoint_of options.ws_url) options.testnet options.ws_topics
        options.ws_config

  abbrev pub handle_subscribe : List Text → Result WsError (List Message)
  handle_subscribe topics = ok (subscribe topics ∷ [])

  abbrev pub active_ping : List Message
  active_ping = ping ∷ []

  abbrev pub expires_at : ℕ → ℕ
  expires_at now = (now % u64_mod + 1_000) % u64_mod

  -- `now` is in milliseconds.
  unfoldable pub handle_auth : ℕ → Result WsError (List Message)
  handle_auth now =
      if options.ws_auth
      then elim options.pubkey [
        | none ↦ err (Messages.auth ConstructAuthError.missing_pubkey)
        | some pubkey ↦ elim options.secret [
          | none ↦ err (Messages.auth ConstructAuthError.missing_secret)
          | some secret ↦
              (let expires = expires_at now in
                ok (
                  auth pubkey expires (hmac secret (codes "GET/realtime" ++ to_text expires)) ∷ []))
        ]
      ]
      else handle_subscribe options.ws_topics

  abbrev pub Reply : Type 0
  Reply = Result WsError (Answer Message (ContentEvent Value))

  abbrev answered : Result WsError (List Message) → Reply
  answered (ok messages) = ok (response messages)
  answered (err e) = err e

  abbrev pub auth_feedback : Bool → Text → Reply
  auth_feedback true ret_msg = answered (handle_subscribe options.ws_topics)
  auth_feedback false ret_msg = err (
      Messages.auth
        (ConstructAuthError.other (codes "Authentication was not successful: " ++ ret_msg)))

  abbrev is_true : Option Bool → Bool
  is_true (some true) = true
  is_true _ = false

  abbrev pub subscribe_feedback : Value → Text → Reply
  subscribe_feedback jrpc ret_msg =
      if is_true (success_field jrpc)
      then ok (response [])
      else if options.ws_auth || not (text_beq ret_msg (codes "Request not authorized"))
      then err (Messages.subscription ret_msg)
      else err (
          Messages.auth (
            ConstructAuthError.other
              (codes "Tried to access a private endpoint without authentication")))

  -- `From<ContentResponse> for ContentEvent`.
  abbrev pub event_of : ContentResponse Value → Option (ContentEvent Value)
  event_of c = from_millisecond c.ts >>= λ time.
      some (record { topic = c.topic; data_ = c.data_; time = time; event_type = c.event_type })

  unfoldable pub handle_jrpc : Value → Option Reply
  handle_jrpc jrpc = elim (from_value jrpc) [
    | err e ↦ some (err (Messages.other e))
    | ok r ↦ elim r [
      | feedback success ret_msg op ↦ elim op [
        | op_auth ↦ some (auth_feedback success ret_msg)
        | op_subscribe ↦ some (subscribe_feedback jrpc ret_msg)
        | op_unsubscribe ↦ none
      ]
      | content c ↦ event_of c >>= λ event. some (ok (Messages.content event))
    ]
  ]
