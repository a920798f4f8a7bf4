-- ===== src/Adapters/Bybit/Options.antt =====
-- `BybitOptions`, their updates and the base URLs (v_exchanges_adapters/src/exchanges/bybit.rs).
-- Secrets are texts, durations are nanoseconds, and the set of topics is the list of what was given.
use v_exchanges.Prelude.{ℕ, Bool, not, Option, none, some, List, Text, codes, is_none}
use v_exchanges.Adapters.Traits.{EndpointUrl, HandlerOptions}

pub data BybitHttpUrl : Type 0 where
  bybit bytick unmodified : BybitHttpUrl

pub data BybitWsUrlBase : Type 0 where
  ws_bybit ws_bytick ws_unmodified : BybitWsUrlBase

pub data BybitHttpAuth : Type 0 where
  spot_v1 below_v3 usdc_contract_v1 v3_and_above no_auth : BybitHttpAuth

abbrev pub http_mainnet : BybitHttpUrl → Text
http_mainnet bybit = codes "https://api.bybit.com"
http_mainnet bytick = codes "https://api.bytick.com"
http_mainnet unmodified = codes ""

abbrev pub http_testnet : BybitHttpUrl → Option Text
http_testnet bybit = some (codes "https://api-testnet.bybit.com")
http_testnet bytick = none
http_testnet unmodified = some (codes "")

instance abbrev pub http_endpoint : EndpointUrl BybitHttpUrl
http_endpoint = record { url_mainnet = http_mainnet; url_testnet = http_testnet }

abbrev pub ws_mainnet : BybitWsUrlBase → Text
ws_mainnet ws_bybit = codes "wss://stream.bybit.com"
ws_mainnet ws_bytick = codes "wss://stream.bytick.com"
ws_mainnet ws_unmodified = codes ""

abbrev pub ws_testnet : BybitWsUrlBase → Option Text
ws_testnet ws_bybit = some (codes "wss://stream-testnet.bybit.com")
ws_testnet ws_bytick = none
ws_testnet ws_unmodified = some (codes "")

instance abbrev pub ws_endpoint : EndpointUrl BybitWsUrlBase
ws_endpoint = record { url_mainnet = ws_mainnet; url_testnet = ws_testnet }

-- The configuration of streams is of a type of its own.
pub record BybitOptions (WsConfig : Type 0) : Type 0 where
  pub pubkey : Option Text
  pub secret : Option Text
  pub testnet : Bool
  pub http_url : BybitHttpUrl
  pub http_auth : BybitHttpAuth
  pub recv_window : Option ℕ
  pub ws_url : BybitWsUrlBase
  pub ws_auth : Bool
  pub ws_config : WsConfig
  pub ws_topics : List Text

pub data BybitOption (WsConfig : Type 0) : Type 0 where
  unset : BybitOption WsConfig
  set_pubkey set_secret : Text → BybitOption WsConfig
  set_testnet : Bool → BybitOption WsConfig
  set_http_url : BybitHttpUrl → BybitOption WsConfig
  set_http_auth : BybitHttpAuth → BybitOption WsConfig
  set_recv_window : ℕ → BybitOption WsConfig
  set_ws_url : BybitWsUrlBase → BybitOption WsConfig
  set_ws_auth : Bool → BybitOption WsConfig
  set_ws_config : WsConfig → BybitOption WsConfig
  set_ws_topics : List Text → BybitOption WsConfig

module _ {WsConfig : Type 0} where
  abbrev pub update : BybitOption WsConfig → BybitOptions WsConfig → BybitOptions WsConfig
  update unset o = o
  update (set_pubkey v) o = record o { pubkey = some v }
  update (set_secret v) o = record o { secret = some v }
  update (set_testnet v) o = record o { testnet = v }
  update (set_http_url v) o = record o { http_url = v }
  update (set_http_auth v) o = record o { http_auth = v }
  update (set_recv_window v) o = record o { recv_window = some v }
  update (set_ws_url v) o = record o { ws_url = v }
  update (set_ws_auth v) o = record o { ws_auth = v }
  update (set_ws_config v) o = record o { ws_config = v }
  update (set_ws_topics v) o = record o { ws_topics = v }

  abbrev pub is_authenticated : BybitOptions WsConfig → Bool
  is_authenticated o = not (is_none o.pubkey)

  -- The name of a key, by what SHA-256 makes of it: its first four bytes in hexadecimal.
  abbrev pub rate_limit_key_name : (Text → Text) → BybitOptions WsConfig → Option Text
  rate_limit_key_name digest o = elim o.pubkey [ none ↦ none | some k ↦ some (digest k) ]

  abbrev pub handler_options : HandlerOptions (BybitOptions WsConfig) (BybitOption WsConfig)
  handler_options = record { update = update; is_authenticated = is_authenticated }
