-- ===== src/Lib.antt =====
-- Verification of v_exchanges: clients of cryptocurrency exchanges, over HTTP and WebSocket.
--
-- The parts, and how they interact. An HTTP call names a rate-limit bucket after its host and its
-- credentials, is refused while the bucket is banned, waits for the keyed rate limiter, and is sent
-- in a loop that retries network errors after an exponential backoff; the adapter's
-- `handle_response` turns a response into a result or an error, and a reported ban closes the bucket.
-- A WebSocket connection drains its socket in batches, keeps its upkeep (flushes, timeouts,
-- heartbeats) among a set of futures, and dials again after the same backoff. The methods translate
-- requests and streams into the exchanges' terms.
--
-- Files and code:
--   Prelude           numbers, results, maps and texts that the others share
--   Ratelimiter       v_exchanges_api_generics/src/ratelimiter: Nanos (nanos.rs), Clock (clock.rs),
--                     Quota (quota.rs), Gcra (gcra.rs), StateStore and Limiter (mod.rs), and
--                     Interleaving, the state store's loop as steps of many threads
--   Retry             v_exchanges_api_generics/src/retry: Config and Manager (mod.rs), Backoff
--                     (backoff.rs), and Float, what that code asks of `f64`
--   Http              v_exchanges_api_generics/src/http.rs: Errors, Config, Parts (the client, its
--                     handler and what the world does), Bucket, and Client, which is
--                     `Client::request` from `heal` to `settle`
--   Ws                v_exchanges_api_generics/src/ws.rs: Messages, Config, Connection (`connect`,
--                     `reconnect`, `try_flush_outbox`, `choose_timeout`), Batch (the frames of a
--                     read) and Next (`next`)
--   Adapters          v_exchanges_adapters/src: Traits (traits.rs, and what all handlers repeat) and
--                     Client (lib.rs: default options, options of a call, and the call itself)
--   Adapters.Binance  v_exchanges_adapters/src/exchanges/binance.rs: Codes, Response, Urls,
--                     Options (with the signing of requests) and Stream (`BinanceWsHandler`)
--   Adapters.Bybit    bybit.rs beside it: Codes, Response, Options, Signing (`v1_auth`, `v3_auth`) and
--                     Stream (`BybitWsHandler`)
--   Adapters.Kucoin   kucoin.rs: Codes, Response, Options, Signing and Stream (`KucoinWsHandler`)
--   Adapters.Mexc     mexc.rs: Codes, Response, Options and Signing
--   Adapters.Bitflyer, Adapters.Coincheck  bitflyer.rs and coincheck.rs; Adapters.Access is what the
--                     two have in common
--   Core              v_exchanges_core/src/lib.rs: Numbers (integers from texts) and Decimals (`Price`
--                     and `Qty` from texts)
--   Methods           v_exchanges_methods/src: Ranges, Windows and Trades (core.rs), Info (core.rs,
--                     error.rs, and the cache of listings in binance/mod.rs and bybit/mod.rs), Errors
--                     (error.rs), Requests (core.rs and utils.rs), Tables (the loops over listed
--                     responses) and Candles (what candles and open interest are)
--   Methods.Accounts  permissions of keys (core.rs and the exchanges' account.rs), with Valued
--                     (binance, kucoin and mexc: balances) and Earning (bybit/account.rs: balances)
--   Methods.Streams   what the streams share; Methods.Depth, Methods.Binance.Trades and
--                     Methods.Binance.Book are binance/ws.rs, Methods.Bybit.Book is bybit/ws.rs
--   Methods.Binance   Market (binance/market.rs, spot/market.rs and the prices of perp/market.rs) and
--                     Futures (perp/general.rs)
--   Methods.Bybit     Market and Listing (bybit/market.rs)
--   Methods.Kucoin    kucoin/market.rs, with its Klines; Methods.Mexc is mexc/market.rs
--   Tests             concrete runs
-- A file below one of these proves what its name says of it: Gcra/Bursts, Client/Gate, Next/Wiring.
--
-- Conventions. Times are nanoseconds in natural numbers; the code's `u64` keeps its wrap-around as
-- `% 2 ^ 64`, its saturation as a minimum. A panic is `none` of an Option, or a case of its own. A
-- map is read through its lookups. Clocks, jitter, the network, files, JSON and UTF-8 are arguments.
-- A call of `next` says at which of its awaits it is dropped, if it is: the wait of the backoff, the
-- `Close` of a reconnection, a dial, or the wait for an event, behind which no more events come.
-- Other threads are a list of attempts that disturb a compare-exchange, or steps of a relation.
--
-- Fuel and bounds. The loops of sending and of the retry manager run on fuel for one attempt more
-- than there are retries: the counter of attempts ends them, so that this is enough, as is proved of
-- both. The waits for the limiter and `next` run on the list of their rounds and events, since the
-- code goes on for as long as the world lets it. The limiter's laws hold up to a horizon for which no
-- sum of a decision passes 2 ^ 64 nanoseconds, some 584 years.
--
-- Not modelled: the concurrent waits `await_keys_ready(_n)`, which run the modelled wait for several
-- keys; logging and Display; the parsing of JSON; orders, whose types no exchange here places yet; the
-- times of KuCoin's and MEXC's requests of candles, which read the clock; the conversions of prices
-- from and to `f64`; and the build scripts.
pub mod Prelude
pub mod Ratelimiter
pub mod Retry
pub mod Core
pub mod Http
pub mod Ws
pub mod Adapters
pub mod Methods
mod Tests
