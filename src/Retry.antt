-- ===== src/Retry.antt =====
-- Retrying, v_exchanges_api_generics/src/retry: the configuration, the exponential backoff and the
-- retry manager, over an abstract `f64`.
pub mod Float
pub mod Config
pub mod Backoff
pub mod Manager
