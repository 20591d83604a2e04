-- ===== src/Memory/Invariant/Defs.antt =====
-- What a well-formed state of the adapter is.
use fastauth.Prelude.{String}
use fastauth.Dict.Tables.{IsTable, IsTable-nil}
use fastauth.Domain.Models.{
  User, Session, Account, Verification, ApiKey, JwksKey, RateLimit, RefreshToken,
}
use fastauth.Memory.State.{Memory, empty}

-- The field that each table keys its rows by.
abbrev pub user_key : User → String
user_key row = row.id

abbrev pub session_key : Session → String
session_key row = row.id

abbrev pub account_key : Account → String
account_key row = row.id

abbrev pub verification_key : Verification → String
verification_key row = row.id

abbrev pub api_key_key : ApiKey → String
api_key_key row = row.id

abbrev pub jwks_key_key : JwksKey → String
jwks_key_key row = row.id

abbrev pub rate_limit_key : RateLimit → String
rate_limit_key row = row.key

abbrev pub refresh_token_key : RefreshToken → String
refresh_token_key row = row.id

pub record IsWellFormed (m : Memory) : Type 0 where
  pub users : IsTable user_key m.users
  pub sessions : IsTable session_key m.sessions
  pub accounts : IsTable account_key m.accounts
  pub verifications : IsTable verification_key m.verifications
  pub api_keys : IsTable api_key_key m.api_keys
  pub jwks_keys : IsTable jwks_key_key m.jwks_keys
  pub rate_limits : IsTable rate_limit_key m.rate_limits
  pub refresh_tokens : IsTable refresh_token_key m.refresh_tokens

pub empty-IsWellFormed : IsWellFormed empty
empty-IsWellFormed = record {
  users = IsTable-nil user_key;
  sessions = IsTable-nil session_key;
  accounts = IsTable-nil account_key;
  verifications = IsTable-nil verification_key;
  api_keys = IsTable-nil api_key_key;
  jwks_keys = IsTable-nil jwks_key_key;
  rate_limits = IsTable-nil rate_limit_key;
  refresh_tokens = IsTable-nil refresh_token_key;
}
