-- ===== src/Adapters/Bitflyer.antt =====
-- The bitFlyer adapter, v_exchanges_adapters/src/exchanges/bitflyer.rs. Its stream handler is not
-- implemented in the code.
pub mod Signed
use v_exchanges.Prelude.{
  ℕ, Bool, false, not, Option, none, some, List, [], ◌++◌, Result, ok, err, Text, codes, is_none,
  if◌then◌else◌,
}
use v_exchanges.Http.Errors
use v_exchanges.Http.Errors.{BuildError, HandleError, UrlError}
use v_exchanges.Adapters.Traits.{HandlerOptions}
use v_exchanges.Adapters.Access
use v_exchanges.Adapters.Access.{
  Request, Libraries, Decoder, body_text, stamp, with_body, encoded, sign_with,
}

pub data BitFlyerHttpUrl : Type 0 where
  main unmodified : BitFlyerHttpUrl

pub data BitFlyerWebSocketUrl : Type 0 where
  ws_main ws_unmodified : BitFlyerWebSocketUrl

abbrev pub as_str : BitFlyerHttpUrl → Text
as_str main = codes "https://api.bitflyer.com"
as_str unmodified = codes ""

abbrev pub ws_as_str : BitFlyerWebSocketUrl → Text
ws_as_str ws_main = codes "wss://ws.lightstream.bitflyer.com"
ws_as_str ws_unmodified = codes ""

-- The configurations of requests and of streams are of types of their own.
pub record BitFlyerOptions (RequestConfig WebSocketConfig : Type 0) : Type 0 where
  pub key : Option Text
  pub secret : Option Text
  pub http_url : BitFlyerHttpUrl
  pub http_auth : Bool
  pub request_config : RequestConfig
  pub websocket_url : BitFlyerWebSocketUrl
  pub websocket_auth : Bool
  pub websocket_channels : List Text
  pub websocket_config : WebSocketConfig

pub data BitFlyerOption (RequestConfig WebSocketConfig : Type 0) : Type 0 where
  unset : BitFlyerOption RequestConfig WebSocketConfig
  set_key set_secret : Text → BitFlyerOption RequestConfig WebSocketConfig
  set_http_url : BitFlyerHttpUrl → BitFlyerOption RequestConfig WebSocketConfig
  set_http_auth set_websocket_auth : Bool → BitFlyerOption RequestConfig WebSocketConfig
  set_request_config : RequestConfig → BitFlyerOption RequestConfig WebSocketConfig
  set_websocket_url : BitFlyerWebSocketUrl → BitFlyerOption RequestConfig WebSocketConfig
  set_websocket_channels : List Text → BitFlyerOption RequestConfig WebSocketConfig
  set_websocket_config : WebSocketConfig → BitFlyerOption RequestConfig WebSocketConfig

-- The path with the query, if there is one.
abbrev pub path_of : Request → Text
path_of r = elim r.query [ none ↦ r.path | some q ↦ r.path ++ codes "?" ++ q ]

abbrev pub sign_contents : Libraries → ℕ → Request → Text
sign_contents lib timestamp r =
    lib.to_text (stamp timestamp) ++ r.method ++ path_of r ++ body_text r

module _ {RequestConfig WebSocketConfig : Type 0} where
  -- `Default`, with the default configurations.
  abbrev pub default :
      RequestConfig → WebSocketConfig → BitFlyerOptions RequestConfig WebSocketConfig
  default request_config websocket_config = record {
    key = none;
    secret = none;
    http_url = main;
    http_auth = false;
    request_config = request_config;
    websocket_url = ws_main;
    websocket_auth = false;
    websocket_channels = [];
    websocket_config = websocket_config;
  }

  abbrev pub update :
      BitFlyerOption RequestConfig WebSocketConfig
      → BitFlyerOptions RequestConfig WebSocketConfig
      → BitFlyerOptions RequestConfig WebSocketConfig
  update unset o = o
  update (set_key v) o = record o { key = some v }
  update (set_secret v) o = record o { secret = some v }
  update (set_http_url v) o = record o { http_url = v }
  update (set_http_auth v) o = record o { http_auth = v }
  update (set_request_config v) o = record o { request_config = v }
  update (set_websocket_url v) o = record o { websocket_url = v }
  update (set_websocket_auth v) o = record o { websocket_auth = v }
  update (set_websocket_channels v) o = record o { websocket_channels = v }
  update (set_websocket_config v) o = record o { websocket_config = v }

  abbrev pub is_authenticated : BitFlyerOptions RequestConfig WebSocketConfig → Bool
  is_authenticated o = not (is_none o.key)

  abbrev pub handler_options :
      HandlerOptions
        (BitFlyerOptions RequestConfig WebSocketConfig)
        (BitFlyerOption RequestConfig WebSocketConfig)
  handler_options = record { update = update; is_authenticated = is_authenticated }

  abbrev pub base_url :
      {Url : Type 0}
      → (Text → Result Text Url)
      → BitFlyerOptions RequestConfig WebSocketConfig
      → Bool
      → Option (Result UrlError Url)
  base_url parse o = Access.base_url parse (as_str o.http_url)

  -- `timestamp` is in milliseconds; the body is given with its JSON.
  unfoldable pub build_request :
      Libraries
      → BitFlyerOptions RequestConfig WebSocketConfig
      → ℕ
      → Option (Result Text Text)
      → Request
      → Result BuildError Request
  build_request lib o timestamp body request = elim (encoded body) [
    | err e ↦ err (Errors.json_serialization e)
    | ok json ↦
        (let built = with_body (codes "application/json") json request in
          if o.http_auth
          then sign_with lib o.secret o.key timestamp (sign_contents lib timestamp built)
              (record built { content_type = some (codes "application/json") })
          else ok built)
  ]

abbrev pub handle_response : {Body S : Type 0} → Decoder Body S → ℕ → Body → Result HandleError S
handle_response decoder = Access.handle_response decoder (codes "BitFlyer")
