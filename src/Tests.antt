-- ===== src/Tests.antt =====
-- Concrete runs of the modelled code.
mod Samples
mod Stores
mod Buckets
mod Services
mod Flows
mod Context
mod SignIn
mod Credentials
mod Accounts
mod Jwks
mod ApiKeys
mod Challenges
