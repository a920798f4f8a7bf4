-- ===== src/Adapters/Binance.antt =====
-- The Binance adapter, v_exchanges_adapters/src/exchanges/binance.rs.
pub mod Stream
pub mod Codes
pub mod Response
pub mod Options
pub mod Urls
