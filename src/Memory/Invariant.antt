-- ===== src/Memory/Invariant.antt =====
-- The invariant of the in-memory adapter.
pub mod Defs
pub mod Rows
pub mod Steps
