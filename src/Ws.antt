-- ===== src/Ws.antt =====
-- The WebSocket connection, v_exchanges_api_generics/src/ws.rs: configuration, connection upkeep,
-- the frames of a batch, and the draining `next`.
pub mod Messages
pub mod Config
pub mod Connection
pub mod Batch
pub mod Next
