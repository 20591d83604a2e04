-- ===== src/Memory.antt =====
-- src/fastauth/storage/memory.py: `InMemoryAdapter`, one child module for each kind of row. Its
-- methods hold one lock from their first line to their last, so each is one step on the tables.
mod State
pub mod Cleanup
pub mod Users
pub mod Sessions
pub mod RefreshTokens
pub mod Accounts
pub mod Verifications
pub mod ApiKeys
pub mod JwksKeys
pub mod AuditLogs
pub mod RateLimits
pub mod Ops
pub mod Invariant
pub use State.{Memory, empty}
