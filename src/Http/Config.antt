-- ===== src/Http/Config.antt =====
-- `RequestConfig` (v_exchanges_api_generics/src/http.rs). Durations are nanoseconds.
use v_exchanges.Prelude.{ℕ, ◌*◌, Bool, false, Option, none, some, Text}
use v_exchanges.Retry.Float.{Float}
use v_exchanges.Retry.Config.{RetryConfig}

abbrev days : ℕ → ℕ
days n = n * 86_400_000_000_000

abbrev pub mock_cache_duration : ℕ
mock_cache_duration = days 30

module _ (fl : Float) where
  pub record RequestConfig : Type 0 where
    pub retry : RetryConfig fl
    pub timeout : ℕ
    pub use_testnet : Bool
    pub cache_testnet_calls : Option ℕ
    pub mock_cache_dir : Option Text
    pub ban_cooldown : ℕ

  -- `RequestConfig::default()`, with the default `RetryConfig`.
  unfoldable pub default : RequestConfig
  default = record {
    retry = record {
      max_retries = 3;
      initial_delay_ms = 500;
      max_delay_ms = 5_000;
      backoff_factor = fl.tenths 20;
      jitter_ms = 100;
      immediate_first = false;
      max_elapsed_ms = none;
    };
    timeout = 3_000_000_000;
    use_testnet = false;
    cache_testnet_calls = some (days 30);
    mock_cache_dir = none;
    ban_cooldown = 300_000_000_000;
  }
