-- ===== src/Adapters/Kucoin/Options.antt =====
-- `KucoinOptions`, their updates and the base URLs (v_exchanges_adapters/src/exchanges/kucoin.rs).
-- Secrets are texts, and the set of topics is the list of what was given.
use v_exchanges.Prelude.{Bool, not, ◌&&◌, Option, some, List, Text, codes, is_none}
use v_exchanges.Adapters.Traits.{EndpointUrl, HandlerOptions}

pub data KucoinHttpUrl : Type 0 where
  spot futures unmodified : KucoinHttpUrl

pub data KucoinWsUrl : Type 0 where
  ws_spot ws_futures ws_unmodified : KucoinWsUrl

pub data KucoinAuth : Type 0 where
  sign no_auth : KucoinAuth

abbrev pub http_mainnet : KucoinHttpUrl → Text
http_mainnet spot = codes "https://api.kucoin.com"
http_mainnet futures = codes "https://api-futures.kucoin.com"
http_mainnet unmodified = codes ""

abbrev pub http_testnet : KucoinHttpUrl → Option Text
http_testnet spot = some (codes "https://openapi-sandbox.kucoin.com")
http_testnet futures = some (codes "https://api-sandbox-futures.kucoin.com")
http_testnet unmodified = some (codes "")

instance abbrev pub http_endpoint : EndpointUrl KucoinHttpUrl
http_endpoint = record { url_mainnet = http_mainnet; url_testnet = http_testnet }

abbrev pub ws_mainnet : KucoinWsUrl → Text
ws_mainnet ws_spot = codes "wss://ws-api-spot.kucoin.com"
ws_mainnet ws_futures = codes "wss://ws-api-futures.kucoin.com"
ws_mainnet ws_unmodified = codes ""

abbrev pub ws_testnet : KucoinWsUrl → Option Text
ws_testnet ws_spot = some (codes "wss://ws-api-sandbox-spot.kucoin.com")
ws_testnet ws_futures = some (codes "wss://ws-api-sandbox-futures.kucoin.com")
ws_testnet ws_unmodified = some (codes "")

instance abbrev pub ws_endpoint : EndpointUrl KucoinWsUrl
ws_endpoint = record { url_mainnet = ws_mainnet; url_testnet = ws_testnet }

-- The configuration of streams is of a type of its own.
pub record KucoinOptions (WsConfig : Type 0) : Type 0 where
  pub pubkey : Option Text
  pub secret : Option Text
  pub passphrase : Option Text
  pub http_url : KucoinHttpUrl
  pub http_auth : KucoinAuth
  pub ws_url : KucoinWsUrl
  pub ws_config : WsConfig
  pub ws_topics : List Text
  pub test : Bool

pub data KucoinOption (WsConfig : Type 0) : Type 0 where
  unset : KucoinOption WsConfig
  set_pubkey set_secret set_passphrase : Text → KucoinOption WsConfig
  set_test : Bool → KucoinOption WsConfig
  set_http_url : KucoinHttpUrl → KucoinOption WsConfig
  set_http_auth : KucoinAuth → KucoinOption WsConfig
  set_ws_url : KucoinWsUrl → KucoinOption WsConfig
  set_ws_config : WsConfig → KucoinOption WsConfig
  set_ws_topics : List Text → KucoinOption WsConfig

module _ {WsConfig : Type 0} where
  abbrev pub update : KucoinOption WsConfig → KucoinOptions WsConfig → KucoinOptions WsConfig
  update unset o = o
  update (set_pubkey v) o = record o { pubkey = some v }
  update (set_secret v) o = record o { secret = some v }
  update (set_passphrase v) o = record o { passphrase = some v }
  update (set_test v) o = record o { test = v }
  update (set_http_url v) o = record o { http_url = v }
  update (set_http_auth v) o = record o { http_auth = v }
  update (set_ws_url v) o = record o { ws_url = v }
  update (set_ws_config v) o = record o { ws_config = v }
  update (set_ws_topics v) o = record o { ws_topics = v }

  abbrev pub is_authenticated : KucoinOptions WsConfig → Bool
  is_authenticated o =
      not (is_none o.pubkey) && (not (is_none o.secret) && not (is_none o.passphrase))

  abbrev pub handler_options : HandlerOptions (KucoinOptions WsConfig) (KucoinOption WsConfig)
  handler_options = record { update = update; is_authenticated = is_authenticated }
