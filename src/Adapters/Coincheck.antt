-- ===== src/Adapters/Coincheck.antt =====
-- The Coincheck adapter, v_exchanges_adapters/src/exchanges/coincheck.rs. Its stream handler is not
-- implemented in the code.
pub mod Signed
use v_exchanges.Prelude.{
  ℕ, Bool, false, not, Option, none, some, List, [], ◌++◌, Result, ok, err, Text, codes, is_none,
  if◌then◌else◌,
}
use v_exchanges.Http.Errors
use v_exchanges.Http.Errors.{BuildError, HandleError, UrlError}
use v_exchanges.Adapters.Traits.{HandlerOptions}
use v_exchanges.Adapters.Access
use v_exchanges.Adapters.Access.{
  Request, Libraries, Decoder, body_text, stamp, with_body, encoded, sign_with,
}

pub data CoincheckHttpUrl : Type 0 where
  main unmodified : CoincheckHttpUrl

pub data CoincheckWebSocketUrl : Type 0 where
  ws_main ws_unmodified : CoincheckWebSocketUrl

abbrev pub as_str : CoincheckHttpUrl → Text
as_str main = codes "https://coincheck.com"
as_str unmodified = codes ""

abbrev pub ws_as_str : CoincheckWebSocketUrl → Text
ws_as_str ws_main = codes "wss://ws-api.coincheck.com/"
ws_as_str ws_unmodified = codes ""

-- The configurations of requests and of streams are of types of their own.
pub record CoincheckOptions (RequestConfig WebSocketConfig : Type 0) : Type 0 where
  pub key : Option Text
  pub secret : Option Text
  pub http_url : CoincheckHttpUrl
  pub http_auth : Bool
  pub request_config : RequestConfig
  pub websocket_url : CoincheckWebSocketUrl
  pub websocket_channels : List Text
  pub websocket_config : WebSocketConfig

pub data CoincheckOption (RequestConfig WebSocketConfig : Type 0) : Type 0 where
  unset : CoincheckOption RequestConfig WebSocketConfig
  set_key set_secret : Text → CoincheckOption RequestConfig WebSocketConfig
  set_http_url : CoincheckHttpUrl → CoincheckOption RequestConfig WebSocketConfig
  set_http_auth : Bool → CoincheckOption RequestConfig WebSocketConfig
  set_request_config : RequestConfig → CoincheckOption RequestConfig WebSocketConfig
  set_websocket_url : CoincheckWebSocketUrl → CoincheckOption RequestConfig WebSocketConfig
  set_websocket_channels : List Text → CoincheckOption RequestConfig WebSocketConfig
  set_websocket_config : WebSocketConfig → CoincheckOption RequestConfig WebSocketConfig

-- The whole URL is signed, its query included.
abbrev pub sign_contents : Libraries → ℕ → Request → Text
sign_contents lib timestamp r = lib.to_text (stamp timestamp) ++ r.url ++ body_text r

module _ {RequestConfig WebSocketConfig : Type 0} where
  -- `Default`, with the default configurations.
  abbrev pub default :
      RequestConfig → WebSocketConfig → CoincheckOptions RequestConfig WebSocketConfig
  default request_config websocket_config = record {
    key = none;
    secret = none;
    http_url = main;
    http_auth = false;
    request_config = request_config;
    websocket_url = ws_main;
    websocket_channels = [];
    websocket_config = websocket_config;
  }

  abbrev pub update :
      CoincheckOption RequestConfig WebSocketConfig
      → CoincheckOptions RequestConfig WebSocketConfig
      → CoincheckOptions RequestConfig WebSocketConfig
  update unset o = o
  update (set_key v) o = record o { key = some v }
  update (set_secret v) o = record o { secret = some v }
  update (set_http_url v) o = record o { http_url = v }
  update (set_http_auth v) o = record o { http_auth = v }
  update (set_request_config v) o = record o { request_config = v }
  update (set_websocket_url v) o = record o { websocket_url = v }
  update (set_websocket_channels v) o = record o { websocket_channels = v }
  update (set_websocket_config v) o = record o { websocket_config = v }

  abbrev pub is_authenticated : CoincheckOptions RequestConfig WebSocketConfig → Bool
  is_authenticated o = not (is_none o.key)

  abbrev pub handler_options :
      HandlerOptions
        (CoincheckOptions RequestConfig WebSocketConfig)
        (CoincheckOption RequestConfig WebSocketConfig)
  handler_options = record { update = update; is_authenticated = is_authenticated }

  abbrev pub base_url :
      {Url : Type 0}
      → (Text → Result Text Url)
      → CoincheckOptions RequestConfig WebSocketConfig
      → Bool
      → Option (Result UrlError Url)
  base_url parse o = Access.base_url parse (as_str o.http_url)

  -- `timestamp` is in milliseconds; the body is given in the encoding of forms.
  unfoldable pub build_request :
      Libraries
      → CoincheckOptions RequestConfig WebSocketConfig
      → ℕ
      → Option (Result Text Text)
      → Request
      → Result BuildError Request
  build_request lib o timestamp body request = elim (encoded body) [
    | err e ↦ err (Errors.url_serialization e)
    | ok form ↦
        (let built = with_body (codes "application/x-www-form-urlencoded") form request in
          if o.http_auth
          then sign_with lib o.secret o.key timestamp (sign_contents lib timestamp built) built
          else ok built)
  ]

abbrev pub handle_response : {Body S : Type 0} → Decoder Body S → ℕ → Body → Result HandleError S
handle_response decoder = Access.handle_response decoder (codes "Coincheck")
