-- ===== src/Methods/Bybit.antt =====
-- The methods of Bybit, v_exchanges_methods/src/bybit.
pub mod Book
pub mod Market
pub mod Listing
