-- ===== src/Tests/ApiKeys.antt =====
-- API keys on a concrete state.
use fastauth.Prelude.{arith, String, ◌≡◌, refl, true, false, Option, none, some, List, [], ◌∷◌}
use fastauth.Dict.{Dict, get, put, find}
use fastauth.Domain.Models.{ApiKey}
use fastauth.Memory.{Memory}
use fastauth.Memory.Users.{get_user_by_email}
use fastauth.Plugins.ApiKey.{
  ApiKeyOptions, VerifyResponse, encode_api_key, split_api_key, verify_key,
}
use fastauth.Plugins.ApiKey.Encoding.{split_api_key-encode_api_key}
use fastauth.Plugins.ApiKey.Verification.{IsStored, verify_key-IsAdmitted}
use fastauth.Plugins.ApiKey.Checks.{IsAdmitted}
use fastauth.Security.Policy.Standing.{KeepsClock}
use fastauth.Tests.Context.{context_with, no_lockout, with_account}
use fastauth.Tests.Samples.{world}
use Prim.Native.String.{◌++◌}

split_api_key-encode_api_key_example :
    split_api_key (encode_api_key "ak_" "secret") "ak_" ≡ some "secret"
split_api_key-encode_api_key_example = split_api_key-encode_api_key "ak_" "secret"

abbrev key : ApiKey
key = record {
  id = "key";
  user_id = "alice";
  name = "ci";
  key_hash = "secret";
  key_prefix = "ak_";
  enabled = true;
  expires_at = some 900;
  remaining = some 2;
  refill_amount = none;
  refill_interval_ms = none;
  rate_limit_enabled = false;
  rate_limit_max = none;
  rate_limit_window_ms = none;
  last_refill_at = none;
  last_request_at = none;
  request_count = 0;
  metadata = "{}";
  permissions = ("repo", "read" ∷ []) ∷ [];
  created_at = 1;
  updated_at = 1;
}

abbrev used_key : ApiKey
used_key = record key { remaining = some 1; request_count = 1; last_request_at = some 100 }

abbrev with_key : Memory
with_key = record with_account { api_keys = ("key", key) ∷ [] }

abbrev key_options : ApiKeyOptions
key_options = record {
  require_verified_user = true;
  default_prefix = "ak_";
  default_remaining = none;
  default_rate_limit_max = none;
  default_rate_limit_window = none;
  default_expires_in = none;
}

unhooked : KeepsClock (context_with no_lockout).policy_hook
unhooked decide asked v hooked = ground arith

verify_key-IsAdmitted_example :
    let wanted : Option (Dict (List String)) = some (("repo", "read" ∷ []) ∷ []) in
    (plain : String) × (stored : ApiKey) × (key_options.default_prefix ++ plain ≡ "ak_secret")
    × IsStored (context_with no_lockout) key_options plain stored with_key
    × IsAdmitted wanted stored 100 used_key
unfolding verify_key split_api_key find get put fastauth.Plugins.ApiKey.verify_plain
    fastauth.Plugins.ApiKey.verify_found fastauth.Plugins.ApiKey.check_owner
    fastauth.Plugins.ApiKey.authorize_verify fastauth.Plugins.ApiKey.authorize_key
    fastauth.Plugins.ApiKey.after_policy fastauth.Plugins.ApiKey.check_key
    fastauth.Plugins.ApiKey.is_past fastauth.Plugins.ApiKey.check_limit
    fastauth.Plugins.ApiKey.over_limit fastauth.Plugins.ApiKey.check_quota
    fastauth.Plugins.ApiKey.lacks_wanted fastauth.Plugins.ApiKey.lacks
    fastauth.Plugins.ApiKey.refill fastauth.Plugins.ApiKey.refill_from fastauth.Plugins.ApiKey.spend
    fastauth.Plugins.ApiKey.accept fastauth.Plugins.ApiKey.store_counted
    fastauth.Plugins.ApiKey.counted fastauth.Runtime.World.query fastauth.Runtime.World.utc_now
    fastauth.Runtime.World.attempt_call fastauth.Memory.ApiKeys.get_api_key_by_hash
    fastauth.Memory.ApiKeys.update_api_key fastauth.Memory.Users.get_user_by_id
    fastauth.Security.Policy.authorize fastauth.Security.Policy.check_age
    fastauth.Security.Policy.ask_hook
verify_key-IsAdmitted_example =
    verify_key-IsAdmitted (context_with no_lockout) key_options "ak_secret"
      (some (("repo", "read" ∷ []) ∷ [])) (world with_key) used_key unhooked refl
