-- ===== src/Adapters/Client.antt =====
-- The client of all exchanges, `Client` and `ClientInner` of v_exchanges_adapters/src/lib.rs. The
-- options of bitFlyer and Coincheck are of types of their own.
pub mod Merging
use v_exchanges.Prelude.{Bool, Option, some, List, [], ◌∷◌, Text}
use v_exchanges.Retry.Float.{Float}
use v_exchanges.Ratelimiter.Limiter.{RateLimiter}
use v_exchanges.Http.Parts
use v_exchanges.Http.Parts.{Wire, Handler, World, Progress}
use v_exchanges.Http.Client as http
use v_exchanges.Adapters.Traits.{HandlerOptions}
use v_exchanges.Adapters.Binance.Options.{BinanceOptions}
use v_exchanges.Adapters.Bybit.Options.{BybitOptions}
use v_exchanges.Adapters.Kucoin.Options.{KucoinOptions}
use v_exchanges.Adapters.Mexc.Options.{MexcOptions}

-- The default options that a client keeps for one exchange, and what a mutable borrow of them does.
pub record GetOptions (C Options : Type 0) : Type 0 where
  pub default_options : C → Options
  pub set_default_options : Options → C → C

module _ {Options OptionItem : Type 0} (h : HandlerOptions Options OptionItem) where
  -- The options of one call, in order, over a copy of the default ones.
  abbrev pub merged_from : Options → List OptionItem → Options
  merged_from default_options [] = default_options
  merged_from default_options (option ∷ options) =
      merged_from (h.update option default_options) options

module _ {C Options OptionItem : Type 0} (h : HandlerOptions Options OptionItem)
    (get : GetOptions C Options) where
  unfoldable pub merged_options : C → List OptionItem → Options
  merged_options c options = merged_from h (get.default_options c) options

  unfoldable pub update_default_option : OptionItem → C → C
  update_default_option option c =
      get.set_default_options (h.update option (get.default_options c)) c

  abbrev pub is_authenticated : C → Bool
  is_authenticated c = h.is_authenticated (get.default_options c)

module _ (fl : Float) (WsConfig BitFlyerOptions CoincheckOptions : Type 0) where
  -- The limiter stands here and in the HTTP client, which is the one that uses it.
  pub record ClientInner : Type 0 where
    pub client : Parts.Client fl
    pub rate_limiter : RateLimiter Text
    pub binance : BinanceOptions WsConfig
    pub bitflyer : BitFlyerOptions
    pub bybit : BybitOptions WsConfig
    pub coincheck : CoincheckOptions
    pub kucoin : KucoinOptions WsConfig
    pub mexc : MexcOptions WsConfig

  pub data Client : Type 0 where
    true_ mock : ClientInner → Client

  abbrev pub inner : Client → ClientInner
  inner (true_ i) = i
  inner (mock i) = i

  -- What is done through `inner_mut`.
  abbrev pub with_inner : (ClientInner → ClientInner) → Client → Client
  with_inner f (true_ i) = true_ (f i)
  with_inner f (mock i) = mock (f i)

  abbrev pub with_client : (Parts.Client fl → Parts.Client fl) → ClientInner → ClientInner
  with_client f i = record i { client = f i.client }

  -- `new_mock`, from the default inner client and the directory of the mock calls.
  abbrev pub new_mock : ClientInner → Text → Client
  new_mock i dir =
      mock
        (with_client (λ c. record c { config = record (c.config) { mock_cache_dir = some dir } }) i)

  unfoldable pub set_rate_limiter : RateLimiter Text → Client → Client
  set_rate_limiter rl =
      with_inner
        (λ i. record i { client = record (i.client) { rate_limiter = some rl }; rate_limiter = rl })

  abbrev pub http_client : Client → Parts.Client fl
  http_client c = (inner c).client

  abbrev pub binance_options : GetOptions Client (BinanceOptions WsConfig)
  binance_options = record {
    default_options = λ c. (inner c).binance;
    set_default_options = λ o. with_inner (λ i. record i { binance = o });
  }

  abbrev pub bybit_options : GetOptions Client (BybitOptions WsConfig)
  bybit_options = record {
    default_options = λ c. (inner c).bybit;
    set_default_options = λ o. with_inner (λ i. record i { bybit = o });
  }

  abbrev pub kucoin_options : GetOptions Client (KucoinOptions WsConfig)
  kucoin_options = record {
    default_options = λ c. (inner c).kucoin;
    set_default_options = λ o. with_inner (λ i. record i { kucoin = o });
  }

  abbrev pub mexc_options : GetOptions Client (MexcOptions WsConfig)
  mexc_options = record {
    default_options = λ c. (inner c).mexc;
    set_default_options = λ o. with_inner (λ i. record i { mexc = o });
  }

  -- `request`, and the shorter calls of it, with the request handler that an adapter makes of its
  -- options.
  unfoldable pub request :
      (w : Wire) {S Options OptionItem : Type 0} (h : HandlerOptions Options OptionItem)
      (get : GetOptions Client Options)
      → (Options → Handler w S)
      → World w
      → Client
      → List OptionItem
      → Progress w fl S
  unfolding merged_options
  request w h get request_handler world c options =
      http.request w fl (request_handler (merged_options h get c options)) world (http_client c)
