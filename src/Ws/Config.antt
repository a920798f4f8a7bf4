-- ===== src/Ws/Config.antt =====
-- `WsConfig` of v_exchanges_api_generics/src/ws.rs. Durations are nanoseconds.
use v_exchanges.Prelude.{ℕ, ◌*◌, Bool, false, Option, none, some, if◌then◌else◌, ◌==◌, u32_max}
use v_exchanges.Retry.Float.{Float}
use v_exchanges.Retry.Config.{RetryConfig}

module _ (fl : Float) where
  -- The base URL and the topics are the handler's, and are read by nothing here.
  pub record WsConfig : Type 0 where
    pub auth : Bool
    pub reconnect : RetryConfig fl
    pub refresh_after : ℕ
    pub message_timeout : ℕ
    pub response_timeout : ℕ
    pub active_ping_freq : Option ℕ

  unfoldable pub default : WsConfig
  default = record {
    auth = false;
    reconnect = record {
      max_retries = u32_max;
      initial_delay_ms = 1_000;
      max_delay_ms = 30_000;
      backoff_factor = fl.tenths 20;
      jitter_ms = 500;
      immediate_first = false;
      max_elapsed_ms = none;
    };
    refresh_after = 12 * 3_600_000_000_000;
    message_timeout = 32_000_000_000;
    response_timeout = 8_000_000_000;
    active_ping_freq = none;
  }

  abbrev pub set_reconnect : RetryConfig fl → WsConfig → WsConfig
  set_reconnect r c = record c { reconnect = r }

  -- The setters refuse a zero duration.
  unfoldable pub set_refresh_after : ℕ → WsConfig → Option WsConfig
  set_refresh_after d c = if d == 0 then none else some (record c { refresh_after = d })

  unfoldable pub set_message_timeout : ℕ → WsConfig → Option WsConfig
  set_message_timeout d c = if d == 0 then none else some (record c { message_timeout = d })

  unfoldable pub set_response_timout : ℕ → WsConfig → Option WsConfig
  set_response_timout d c = if d == 0 then none else some (record c { response_timeout = d })

  unfoldable pub set_active_ping_freq : ℕ → WsConfig → Option WsConfig
  set_active_ping_freq d c = if d == 0 then none else some (record c { active_ping_freq = some d })
