-- ===== src/Http.antt =====
-- The HTTP client, v_exchanges_api_generics/src/http.rs: errors, configuration, the bucket of a
-- request, the ban gate, and `Client::request`.
pub mod Errors
pub mod Config
pub mod Parts
pub mod Bucket
pub mod Client
