-- ===== src/Adapters/Kucoin.antt =====
-- The KuCoin adapter, v_exchanges_adapters/src/exchanges/kucoin.rs.
pub mod Codes
pub mod Response
pub mod Options
pub mod Signing
pub mod Stream
