-- ===== src/Adapters/Binance/Urls.antt =====
-- The base URLs of v_exchanges_adapters/src/exchanges/binance.rs.
pub mod Networks
use v_exchanges.Prelude.{Option, none, some, Text, codes}
use v_exchanges.Adapters.Traits.{EndpointUrl}

pub data BinanceHttpUrl : Type 0 where
  spot spot1 spot2 spot3 spot4 spot_data futures_usd_m futures_coin_m european_options unmodified :
      BinanceHttpUrl

pub data BinanceWsUrl : Type 0 where
  ws_spot ws_spot9443 ws_spot443 ws_spot_data ws_web_socket443 ws_web_socket9443 ws_futures_usd_m
        ws_futures_usd_mauth ws_futures_coin_m ws_european_options ws_unmodified :
      BinanceWsUrl

-- `url_mainnet` of the REST API, as text.
abbrev pub http_mainnet : BinanceHttpUrl → Text
http_mainnet spot = codes "https://api.binance.com"
http_mainnet spot1 = codes "https://api1.binance.com"
http_mainnet spot2 = codes "https://api2.binance.com"
http_mainnet spot3 = codes "https://api3.binance.com"
http_mainnet spot4 = codes "https://api4.binance.com"
http_mainnet spot_data = codes "https://data.binance.com"
http_mainnet futures_usd_m = codes "https://fapi.binance.com"
http_mainnet futures_coin_m = codes "https://dapi.binance.com"
http_mainnet european_options = codes "https://eapi.binance.com"
http_mainnet unmodified = codes ""

-- `url_testnet` of the REST API.
abbrev pub http_testnet : BinanceHttpUrl → Option Text
http_testnet spot = some (codes "https://testnet.binance.vision")
http_testnet spot1 = some (codes "https://testnet.binance.vision")
http_testnet spot2 = some (codes "https://testnet.binance.vision")
http_testnet spot3 = some (codes "https://testnet.binance.vision")
http_testnet spot4 = some (codes "https://testnet.binance.vision")
http_testnet spot_data = some (codes "https://testnet.binance.vision")
http_testnet futures_usd_m = some (codes "https://testnet.binancefuture.com")
http_testnet futures_coin_m = some (codes "https://testnet.binancefuture.com")
http_testnet european_options = none
http_testnet unmodified = some (codes "")

-- The same of the WebSocket API.
abbrev pub ws_mainnet : BinanceWsUrl → Text
ws_mainnet ws_spot = codes "wss://stream.binance.com:9443"
ws_mainnet ws_spot9443 = codes "wss://stream.binance.com:9443"
ws_mainnet ws_spot443 = codes "wss://stream.binance.com:443"
ws_mainnet ws_spot_data = codes "wss://data-stream.binance.com"
ws_mainnet ws_web_socket443 = codes "wss://ws-api.binance.com:443"
ws_mainnet ws_web_socket9443 = codes "wss://ws-api.binance.com:9443"
ws_mainnet ws_futures_usd_m = codes "wss://fstream.binance.com"
ws_mainnet ws_futures_usd_mauth = codes "wss://fstream-auth.binance.com"
ws_mainnet ws_futures_coin_m = codes "wss://dstream.binance.com"
ws_mainnet ws_european_options = codes "wss://nbstream.binance.com"
ws_mainnet ws_unmodified = codes ""

abbrev pub ws_testnet : BinanceWsUrl → Option Text
ws_testnet ws_spot = some (codes "wss://testnet.binance.vision")
ws_testnet ws_spot9443 = some (codes "wss://testnet.binance.vision:9443")
ws_testnet ws_spot443 = some (codes "wss://testnet.binance.vision:443")
ws_testnet ws_futures_usd_m = some (codes "wss://stream.binancefuture.com")
ws_testnet ws_futures_coin_m = some (codes "wss://dstream.binancefuture.com")
ws_testnet _ = none

instance abbrev pub http_endpoint : EndpointUrl BinanceHttpUrl
http_endpoint = record { url_mainnet = http_mainnet; url_testnet = http_testnet }

instance abbrev pub ws_endpoint : EndpointUrl BinanceWsUrl
ws_endpoint = record { url_mainnet = ws_mainnet; url_testnet = ws_testnet }
