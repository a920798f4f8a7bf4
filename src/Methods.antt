-- ===== src/Methods.antt =====
-- The exchanges' methods, v_exchanges_methods.
pub mod Info
pub mod Tables
pub mod Depth
pub mod Streams
pub mod Binance
pub mod Bybit
pub mod Ranges
pub mod Requests
pub mod Candles
pub mod Accounts
pub mod Mexc
pub mod Errors
pub mod Windows
pub mod Trades
pub mod Kucoin
