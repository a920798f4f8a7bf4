-- ===== src/Adapters/Kucoin/Stream.antt =====
-- `KucoinWsHandler` of v_exchanges_adapters/src/exchanges/kucoin.rs. JSON, the time library and the
-- clock when a value is handled are arguments.
pub mod Unsubscribed
use v_exchanges.Prelude.{
  ℤ, pos, Bool, true, false, Option, none, some, List, [], ◌∷◌, ◌++◌, Result, ok, err, Text, codes,
  join_with, if◌then◌else◌,
}
use v_exchanges.Http.Errors.{ConstructAuthError, UrlError}
use v_exchanges.Ws.Messages
use v_exchanges.Ws.Messages.{WsError, Answer, Protocol, ContentEvent, Topic, strings}
use v_exchanges.Adapters.Traits.{StreamConfig, stream_config}
use v_exchanges.Adapters.Kucoin.Options.{
  KucoinOptions, KucoinWsUrl, ws_spot, ws_futures, ws_unmodified, ws_endpoint,
}

-- The subscription with its topics in one text, and the frame of a ping.
pub data Message : Type 0 where
  subscribe : Text → Message
  ping : Message

pub record Libraries (Value : Type 0) : Type 0 where
  -- "type" and "topic" as strings, "data", and "time" as an `i64`.
  pub type_field : Value → Option Text
  pub topic_field : Value → Option Text
  pub data_field : Value → Option Value
  pub time_field : Value → Option ℤ
  pub null : Value
  pub from_millisecond : ℤ → Option ℤ
  pub now : Value → ℤ
  pub is_pong : Value → Bool

abbrev pub endpoint_of : KucoinWsUrl → Option KucoinWsUrl
endpoint_of ws_unmodified = none
endpoint_of url = some url

abbrev pub unwrap_or {ℓ} : {A : Type ℓ} → Option A → A → A
unwrap_or (some a) _ = a
unwrap_or none a = a

unfoldable pub handle_subscribe :
    {Order : Type 0} → List (Topic Order) → Result WsError (List Message)
handle_subscribe topics = ok (subscribe (join_with (codes ",") (strings topics)) ∷ [])

-- The options, with the URL library's type and the rest of the configuration of streams.
abbrev pub StreamOptions : Type 0 → Type 0 → Type 0
StreamOptions Url Rest = KucoinOptions (StreamConfig Url Rest)

module _ {Url Rest : Type 0} where
  unfoldable pub config :
      (Text → Option Url)
      → StreamOptions Url Rest
      → Option (Result UrlError (StreamConfig Url Rest))
  config parse options =
      stream_config parse (endpoint_of options.ws_url) options.test options.ws_topics
        options.ws_config

  -- `WsConfig::auth` is a field of the rest of the configuration.
  unfoldable pub handle_auth :
      (Rest → Bool) → StreamOptions Url Rest → Result WsError (List Message)
  handle_auth auth options =
      if auth options.ws_config.rest
      then elim options.pubkey [
        | none ↦ err (Messages.auth ConstructAuthError.missing_pubkey)
        | some _ ↦ elim options.secret [
          | none ↦ err (Messages.auth ConstructAuthError.missing_secret)
          | some _ ↦ ok []
        ]
      ]
      else ok []

module _ {Value : Type 0} (lib : Libraries Value) where
  open lib use {
    type_field, topic_field, data_field, time_field, null, from_millisecond, now, is_pong,
  }

  abbrev pub event_of : Value → ContentEvent Value
  event_of jrpc = record {
    data_ = unwrap_or (data_field jrpc) null;
    topic = unwrap_or (topic_field jrpc) (codes "");
    time = unwrap_or (from_millisecond (unwrap_or (time_field jrpc) (pos 0))) (now jrpc);
    event_type = unwrap_or (type_field jrpc) (codes "unknown");
  }

  unfoldable pub handle_jrpc : Value → Result WsError (Answer Message (ContentEvent Value))
  handle_jrpc jrpc = ok (Answer.content (event_of jrpc))

  -- The handler as the connection uses it; its state is its options, and it never changes them.
  abbrev pub protocol : (Url Rest : Type 0) → (Rest → Bool) → Protocol
  protocol Url Rest auth = record {
    Value = Value;
    Message = Message;
    Content = ContentEvent Value;
    Handler = StreamOptions Url Rest;
    ping = ping;
    is_pong = is_pong;
    active_ping = λ _. [];
    handle_auth = λ options. (handle_auth auth options, options);
    handle_jrpc = λ jrpc options. (handle_jrpc jrpc, options);
  }
