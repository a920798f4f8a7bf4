-- ===== src/Ratelimiter.antt =====
-- The rate limiter, v_exchanges_api_generics/src/ratelimiter: nanosecond counts, the clock, quotas,
-- the GCRA decision, the atomic state cell and the keyed limiter, with their laws.
pub mod Nanos
pub mod Clock
pub mod Quota
pub mod Gcra
pub mod StateStore
pub mod Interleaving
pub mod Limiter
