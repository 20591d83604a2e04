-- ===== src/Tests/Samples.antt =====
-- The state that the concrete runs start from.
use fastauth.Prelude.{◌+◌, String, true, none, some, [], ◌∷◌}
use fastauth.Dict.{put}
use fastauth.Dict.Tables.{IsTable, IsTable-nil, put-IsTable}
use fastauth.Domain.Enums.{VerificationPurpose}
use fastauth.Domain.Models.{User, Session, RefreshToken, Verification}
use fastauth.Memory.{Memory}
use fastauth.Memory.Invariant.Defs.{
  IsWellFormed, user_key, session_key, verification_key, refresh_token_key,
}
use fastauth.Runtime.World.{External, World}

abbrev pub user_named : String → User
user_named name = record {
  id = name;
  email = name;
  username = some name;
  name = none;
  image = none;
  email_verified = true;
  active = true;
  pending_email_change = none;
  metadata = "{}";
  created_at = 0;
  updated_at = 0;
}

abbrev pub alice : User
alice = user_named "alice"

abbrev pub bob : User
bob = user_named "bob"

abbrev pub laptop : Session
laptop = record {
  authenticated_at = some 1;
  id = "laptop";
  user_id = "alice";
  token_hash = "laptop token";
  expires_at = 1000;
  ip_address = none;
  user_agent = none;
  created_at = 1;
  updated_at = 1;
}

abbrev pub grant : RefreshToken
grant = record {
  id = "grant";
  user_id = "alice";
  session_id = "laptop";
  token_hash = "grant token";
  family_id = "grant";
  family_created_at = 1;
  expires_at = 5000;
  authenticated_at = some 1;
  consumed_at = none;
  replaced_by = none;
  ip_address = none;
  user_agent = none;
  created_at = 1;
  updated_at = 1;
}

abbrev pub spent_grant : RefreshToken
spent_grant = record grant { consumed_at = some 50; replaced_by = some "other" }

abbrev pub code : Verification
code = record {
  id = "code";
  identifier = "alice";
  value_hash = "right";
  purpose = VerificationPurpose.password_reset;
  expires_at = 500;
  attempt_count = 0;
  consumed_at = none;
  created_at = 1;
  updated_at = 1;
}

abbrev pub with_token : RefreshToken → Memory
with_token token = record {
  users = ("alice", alice) ∷ ("bob", bob) ∷ [];
  sessions = ("laptop", laptop) ∷ [];
  accounts = [];
  verifications = ("code", code) ∷ [];
  api_keys = [];
  jwks_keys = [];
  audit_logs = [];
  rate_limits = [];
  refresh_tokens = (token.id, token) ∷ [];
}

users-IsTable : IsTable user_key (("alice", alice) ∷ ("bob", bob) ∷ [])
unfolding put
users-IsTable =
    put-IsTable user_key (("alice", alice) ∷ []) bob
      (put-IsTable user_key [] alice (IsTable-nil user_key))

pub with_token-IsWellFormed : (token : RefreshToken) → IsWellFormed (with_token token)
unfolding put
with_token-IsWellFormed token = record {
  users = users-IsTable;
  sessions = put-IsTable session_key [] laptop (IsTable-nil session_key);
  accounts = IsTable-nil _;
  verifications = put-IsTable verification_key [] code (IsTable-nil verification_key);
  api_keys = IsTable-nil _;
  jwks_keys = IsTable-nil _;
  rate_limits = IsTable-nil _;
  refresh_tokens = put-IsTable refresh_token_key [] token (IsTable-nil refresh_token_key);
}

-- The clock shows 100 and then one more at each reading; the digest of a text is the text.
abbrev pub external : External
external = record {
  clock = λ n. 100 + n;
  fresh_id = λ n. "fresh";
  secret = λ n. "fresh token";
  sha256 = λ plain. plain;
}

abbrev pub world : Memory → World
world m = record { memory = m; buckets = []; published = []; ticks = 0; ids = 0; secrets = 0 }
