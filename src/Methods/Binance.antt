-- ===== src/Methods/Binance.antt =====
-- The methods of Binance, v_exchanges_methods/src/binance.
pub mod Trades
pub mod Futures
pub mod Market
pub mod Book
