-- ===== src/Memory/State.antt =====
-- The tables of `InMemoryAdapter`, each keyed by the id of its rows; rate limits by their key.
use fastauth.Prelude.{List, []}
use fastauth.Dict.{Dict}
use fastauth.Domain.Models.{
  User, Session, Account, Verification, ApiKey, JwksKey, AuditLog, RateLimit, RefreshToken,
}

pub record Memory : Type 0 where
  pub users : Dict User
  pub sessions : Dict Session
  pub accounts : Dict Account
  pub verifications : Dict Verification
  pub api_keys : Dict ApiKey
  pub jwks_keys : Dict JwksKey
  pub audit_logs : List AuditLog
  pub rate_limits : Dict RateLimit
  pub refresh_tokens : Dict RefreshToken

-- `InMemoryAdapter()`
abbrev pub empty : Memory
empty = record {
  users = [];
  sessions = [];
  accounts = [];
  verifications = [];
  api_keys = [];
  jwks_keys = [];
  audit_logs = [];
  rate_limits = [];
  refresh_tokens = [];
}
