-- ===== src/Adapters.antt =====
-- The exchange adapters, v_exchanges_adapters.
pub mod Traits
pub mod Binance
pub mod Bybit
pub mod Kucoin
pub mod Mexc
pub mod Access
pub mod Bitflyer
pub mod Coincheck
pub mod Client
