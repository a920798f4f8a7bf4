-- ===== src/Adapters/Bybit.antt =====
-- The Bybit adapter, v_exchanges_adapters/src/exchanges/bybit.rs.
pub mod Codes
pub mod Response
pub mod Options
pub mod Signing
pub mod Stream
