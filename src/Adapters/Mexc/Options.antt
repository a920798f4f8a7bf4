-- ===== src/Adapters/Mexc/Options.antt =====
-- `MexcOptions`, their updates and the base URLs (v_exchanges_adapters/src/exchanges/mexc.rs).
-- Secrets are texts, durations are nanoseconds, and the set of topics is the list of what was given.
pub mod Capped
use v_exchanges.Prelude.{
  ℕ, ◌*◌, Bool, not, Option, none, some, List, [], Text, codes, is_none, if◌then◌else◌, ltb, false,
  Result,
}
use v_exchanges.Http.Errors.{UrlError}
use v_exchanges.Adapters.Traits.{EndpointUrl, HandlerOptions, StreamConfig, stream_config}

pub data MexcHttpUrl : Type 0 where
  spot futures unmodified : MexcHttpUrl

pub data MexcWsUrl : Type 0 where
  ws_spot ws_futures ws_unmodified : MexcWsUrl

pub data MexcAuth : Type 0 where
  sign key no_auth : MexcAuth

abbrev pub http_mainnet : MexcHttpUrl → Text
http_mainnet spot = codes "https://api.mexc.com"
http_mainnet futures = codes "https://contract.mexc.com"
http_mainnet unmodified = codes ""

abbrev pub http_testnet : MexcHttpUrl → Option Text
http_testnet spot = some (codes "https://api-testnet.mexc.com")
http_testnet futures = some (codes "https://contract-testnet.mexc.com")
http_testnet unmodified = some (codes "")

instance abbrev pub http_endpoint : EndpointUrl MexcHttpUrl
http_endpoint = record { url_mainnet = http_mainnet; url_testnet = http_testnet }

abbrev pub ws_mainnet : MexcWsUrl → Text
ws_mainnet ws_spot = codes "wss://stream.mexc.com/ws"
ws_mainnet ws_futures = codes "wss://contract.mexc.com/ws"
ws_mainnet ws_unmodified = codes ""

abbrev pub ws_testnet : MexcWsUrl → Option Text
ws_testnet ws_spot = some (codes "wss://stream-testnet.mexc.com/ws")
ws_testnet ws_futures = some (codes "wss://contract-testnet.mexc.com/ws")
ws_testnet ws_unmodified = none

instance abbrev pub ws_endpoint : EndpointUrl MexcWsUrl
ws_endpoint = record { url_mainnet = ws_mainnet; url_testnet = ws_testnet }

-- The configuration of streams is of a type of its own.
pub record MexcOptions (WsConfig : Type 0) : Type 0 where
  pub pubkey : Option Text
  pub secret : Option Text
  pub testnet : Bool
  pub http_url : MexcHttpUrl
  pub http_auth : MexcAuth
  pub recv_window : Option ℕ
  pub ws_url : MexcWsUrl
  pub ws_config : WsConfig
  pub ws_topics : List Text

pub data MexcOption (WsConfig : Type 0) : Type 0 where
  unset : MexcOption WsConfig
  set_pubkey set_secret : Text → MexcOption WsConfig
  set_testnet : Bool → MexcOption WsConfig
  set_http_url : MexcHttpUrl → MexcOption WsConfig
  set_http_auth : MexcAuth → MexcOption WsConfig
  set_recv_window : ℕ → MexcOption WsConfig
  set_ws_url : MexcWsUrl → MexcOption WsConfig
  set_ws_config : WsConfig → MexcOption WsConfig
  set_ws_topics : List Text → MexcOption WsConfig

-- 60000 milliseconds.
abbrev pub max_recv_window : ℕ
max_recv_window = 60_000 * 1_000_000

module _ {WsConfig : Type 0} where
  -- `MexcOptions::default()`, with a configuration of streams.
  abbrev pub default : WsConfig → MexcOptions WsConfig
  default ws_config = record {
    pubkey = none;
    secret = none;
    testnet = false;
    http_url = unmodified;
    http_auth = no_auth;
    recv_window = none;
    ws_url = ws_unmodified;
    ws_config = ws_config;
    ws_topics = [];
  }

  unfoldable pub update : MexcOption WsConfig → MexcOptions WsConfig → MexcOptions WsConfig
  update unset o = o
  update (set_pubkey v) o = record o { pubkey = some v }
  update (set_secret v) o = record o { secret = some v }
  update (set_testnet v) o = record o { testnet = v }
  update (set_http_url v) o = record o { http_url = v }
  update (set_http_auth v) o = record o { http_auth = v }
  update (set_recv_window v) o =
      if ltb max_recv_window v
      then record o { recv_window = some max_recv_window }
      else record o { recv_window = some v }
  update (set_ws_url v) o = record o { ws_url = v }
  update (set_ws_config v) o = record o { ws_config = v }
  update (set_ws_topics v) o = record o { ws_topics = v }

  abbrev pub is_authenticated : MexcOptions WsConfig → Bool
  is_authenticated o = not (is_none o.pubkey)

  abbrev pub handler_options : HandlerOptions (MexcOptions WsConfig) (MexcOption WsConfig)
  handler_options = record { update = update; is_authenticated = is_authenticated }

abbrev pub endpoint_of : MexcWsUrl → Option MexcWsUrl
endpoint_of ws_unmodified = none
endpoint_of url = some url

-- `MexcWsHandler::config`.
unfoldable pub config :
    {Url Rest : Type 0}
    → (Text → Option Url)
    → MexcOptions (StreamConfig Url Rest)
    → Option (Result UrlError (StreamConfig Url Rest))
config parse options =
    stream_config parse (endpoint_of options.ws_url) options.testnet options.ws_topics
      options.ws_config
