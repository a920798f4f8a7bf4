-- ===== src/Tests/Binance.antt =====
-- The theorems on the streams of Binance.
use v_exchanges.Prelude.{
  ℕ, ◌≡◌, refl, false, ◌||◌, Option, none, some, [], ◌∷◌, ◌++◌, ok, Text, codes, split,
}
use v_exchanges.Adapters.Traits.{StreamConfig, base_url, contains}
use v_exchanges.Adapters.Binance.Options.{BinanceOptions, no_auth}
use v_exchanges.Adapters.Binance.Urls.{spot, ws_futures_usd_m, ws_endpoint}
use v_exchanges.Adapters.Binance.Stream.{config}
use v_exchanges.Adapters.Binance.Stream.Topics.{config-streams}

-- URLs are their texts here.
abbrev given : StreamConfig Text ℕ
given = record { url = none; topics = codes "btcusdt@trade" ∷ []; rest = 0 }

abbrev options : BinanceOptions (StreamConfig Text ℕ)
options = record {
  pubkey = none;
  secret = none;
  recv_window = none;
  http_url = spot;
  http_auth = no_auth;
  ws_url = ws_futures_usd_m;
  ws_config = given;
  ws_topics = codes "btcusdt@depth" ∷ [];
  test = false;
  book_snapshot_freq = none;
}

abbrev join : Text → Text → Option Text
join base path = some (base ++ codes "/" ++ path)

abbrev configured : StreamConfig Text ℕ
configured = record {
  url = some (codes "wss://fstream.binance.com/stream?streams=btcusdt@depth/btcusdt@trade");
  topics = codes "btcusdt@depth" ∷ codes "btcusdt@trade" ∷ [];
  rest = 0;
}

configured_config : config options some join ≡ some (ok configured)
unfolding config base_url
configured_config = refl

config-streams_example :
    ((t : Text)
      → contains configured.topics t ≡ contains given.topics t || contains options.ws_topics t)
    × ((base joined : Text) × (streams : Text) × (base_url some ws_futures_usd_m false
          ≡ some (ok base))
        × (join base (codes "stream?streams=" ++ streams) ≡ some joined)
        × (configured.url ≡ some joined)
        × (split 47 streams ≡ configured.topics))
config-streams_example =
    config-streams options some join ws_futures_usd_m configured refl configured_config (λ e. cc)
      refl
