-- ===== src/Adapters/Binance/Stream.antt =====
-- `BinanceWsHandler` of v_exchanges_adapters/src/exchanges/binance.rs. JSON, the time library and the
-- joining of URLs are arguments. A panic (`unwrap`, `assert`, `todo!`) is `none`.
pub mod Topics
use v_exchanges.Prelude.{
  ℕ, ℤ, Bool, true, false, Option, none, some, List, [], ◌∷◌, ◌++◌, Result, ok, err, Text, codes,
  text_beq, join_with, if◌then◌else◌, ◌>>=◌,
}
use v_exchanges.Http.Errors.{ConstructAuthError, UrlError}
use v_exchanges.Ws.Messages
use v_exchanges.Ws.Messages.{WsError, Answer, ContentEvent, Topic, strings}
use v_exchanges.Adapters.Traits.{StreamConfig, base_url, union}
use v_exchanges.Adapters.Binance.Options.{BinanceOptions}
use v_exchanges.Adapters.Binance.Urls.{BinanceWsUrl, ws_unmodified, ws_endpoint}

-- The subscription, with the random number that identifies it.
pub data Message : Type 0 where
  subscribe : List Text → ℕ → Message

pub record Libraries (Value : Type 0) : Type 0 where
  -- The "stream" and the "data" of a value that has both.
  pub from_value : Value → Option (Text × Value)
  pub is_object : Value → Bool
  -- "e" as a string and "E" as an `i64`, and the object without both.
  pub event_field : Value → Option Text
  pub time_field : Value → Option ℤ
  pub without_fields : Value → Value
  pub from_millisecond : ℤ → Option ℤ

-- The endpoint of the options, unless the URL is left as it is.
abbrev pub endpoint_of : BinanceWsUrl → Option BinanceWsUrl
endpoint_of ws_unmodified = none
endpoint_of url = some url

-- What the base URL is joined with.
abbrev pub stream_path : List Text → Text
stream_path topics = codes "stream?streams=" ++ join_with (codes "/") topics

unfoldable pub handle_subscribe :
    {Order : Type 0} → ℕ → List (Topic Order) → Option (Result WsError (List Message))
handle_subscribe id topics =
    if has_order topics then none else some (ok (subscribe (strings topics) id ∷ []))
  where
    has_order : {Order : Type 0} → List (Topic Order) → Bool
    has_order [] = false
    has_order (Messages.string _ ∷ ts) = has_order ts
    has_order (Messages.order _ ∷ ts) = true

module _ {Url Rest : Type 0} (options : BinanceOptions (StreamConfig Url Rest)) where
  -- With the topics in the URL, which replaces that of the configuration.
  unfoldable pub config :
      (Text → Option Url)
      → (Url → Text → Option Url)
      → Option (Result UrlError (StreamConfig Url Rest))
  config parse join = elim (endpoint_of options.ws_url) [
    | none ↦ some (ok options.ws_config)
    | some url ↦
        (let topics = union options.ws_config.topics options.ws_topics in
          base_url parse url options.test >>= λ r. elim r [
            | err e ↦ some (err e)
            | ok base ↦ join base (stream_path topics) >>= λ joined.
                some (ok (record options.ws_config { url = some joined; topics = topics }))
          ])
  ]

  -- `WsConfig::auth` is a field of the rest of the configuration.
  unfoldable pub handle_auth : (Rest → Bool) → Result WsError (List Message)
  handle_auth auth =
      if auth options.ws_config.rest
      then elim options.pubkey [
        | none ↦ err (Messages.auth ConstructAuthError.missing_pubkey)
        | some _ ↦ elim options.secret [
          | none ↦ err (Messages.auth ConstructAuthError.missing_secret)
          | some _ ↦ ok []
        ]
      ]
      else ok []

abbrev pub unnamed : {Value : Type 0} → Value → Option (Text × Value) → Text × Value
unnamed jrpc (some named) = named
unnamed jrpc none = (codes "", jrpc)

module _ {Value : Type 0} (lib : Libraries Value) where
  open lib use {from_value, is_object, event_field, time_field, without_fields, from_millisecond}

  abbrev pub event_of : Text × Value → Option (ContentEvent Value)
  event_of (topic, data_) =
      if is_object data_
      then (event_field data_ >>= λ event_type. time_field data_ >>= λ ts.
          from_millisecond ts >>= λ time. some (record {
            data_ = without_fields data_;
            topic = topic;
            time = time;
            event_type = event_type;
          }))
      else none

  abbrev pub answer_of : ContentEvent Value → Result WsError (Answer Message (ContentEvent Value))
  answer_of event =
      if text_beq event.event_type (codes "listenKeyExpired")
      then err (Messages.auth (ConstructAuthError.other (codes "Listen key expired")))
      else ok (Messages.content event)

  unfoldable pub handle_jrpc : Value → Option (Result WsError (Answer Message (ContentEvent Value)))
  handle_jrpc jrpc = event_of (unnamed jrpc (from_value jrpc)) >>= λ event. some (answer_of event)
