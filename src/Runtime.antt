-- ===== src/Runtime.antt =====
-- src/fastauth/runtime: the bounded cleanup, and what the flows run on.
pub mod World
pub mod Maintenance
pub mod Returns
