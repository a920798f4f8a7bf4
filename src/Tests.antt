-- ===== src/Tests.antt =====
-- Concrete runs of the theorems, one file for each part.
mod Limits
mod Retries
mod Calls
mod Streams
mod Exchanges
mod Binance
mod Bybit
mod Venues
mod Books
mod Listings
mod Accounts
mod Market
mod Values
