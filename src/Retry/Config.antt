-- ===== src/Retry/Config.antt =====
-- `RetryConfig` and its two stock instances (v_exchanges_api_generics/src/retry/mod.rs).
use v_exchanges.Prelude.{ℕ, Bool, true, false, Option, none}
use v_exchanges.Retry.Float.{Float}

module _ (fl : Float) where
  pub record RetryConfig : Type 0 where
    pub max_retries : ℕ
    pub initial_delay_ms : ℕ
    pub max_delay_ms : ℕ
    pub backoff_factor : fl.F
    pub jitter_ms : ℕ
    pub immediate_first : Bool
    pub max_elapsed_ms : Option ℕ

  -- `create_http_retry_manager`.
  unfoldable pub http_config : RetryConfig
  http_config = record {
    max_retries = 3;
    initial_delay_ms = 500;
    max_delay_ms = 5_000;
    backoff_factor = fl.tenths 20;
    jitter_ms = 100;
    immediate_first = false;
    max_elapsed_ms = none;
  }

  -- `create_websocket_retry_manager`.
  unfoldable pub websocket_config : RetryConfig
  websocket_config = record {
    max_retries = 10;
    initial_delay_ms = 1_000;
    max_delay_ms = 30_000;
    backoff_factor = fl.tenths 20;
    jitter_ms = 500;
    immediate_first = true;
    max_elapsed_ms = none;
  }
