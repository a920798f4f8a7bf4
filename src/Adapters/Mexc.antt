-- ===== src/Adapters/Mexc.antt =====
-- The MEXC adapter, v_exchanges_adapters/src/exchanges/mexc.rs.
pub mod Codes
pub mod Response
pub mod Options
pub mod Signing
