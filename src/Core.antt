-- ===== src/Core.antt =====
-- The scalar types of v_exchanges_core/src/lib.rs.
pub mod Numbers
pub mod Decimals
