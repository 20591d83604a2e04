-- ===== src/Security.antt =====
-- src/fastauth/security.
pub mod Buckets
pub mod RateLimit
pub mod Lockout
pub mod RefreshTokens
pub mod Sessions
pub mod Passwords
pub mod Policy
pub mod Tracker
pub mod Otp
pub mod Jwks
