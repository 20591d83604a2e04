-- ===== src/Tests/Services.antt =====
-- The refresh tokens, the sessions and the account policy on a concrete state.
use fastauth.Prelude.{◌≤◌, ◌≡◌, refl, true, false, none, some, [], arith, ◌==◌, eq_iff}
use fastauth.Dict.{get, find}
use fastauth.Domain.Models.{RefreshToken}
use fastauth.Domain.Errors.{ok, err, refresh_token_reuse}
use fastauth.Memory.Sessions.{get_session_by_token_hash}
use fastauth.Memory.Users.{get_user_by_id}
use fastauth.Memory.RefreshTokens.{get_refresh_token_by_hash}
use fastauth.Domain.Events.{Client}
use fastauth.Security.RefreshTokens.{RefreshTokenOptions, rotate, family_over}
use fastauth.Security.RefreshTokens.Reuse.{IsBurned, rotate-reuse}
use fastauth.Security.RefreshTokens.Deadline.{rotate-deadline}
use fastauth.Security.RefreshTokens.Replay.{rotate-replay}
use fastauth.Security.Sessions.{SessionOptions}
use fastauth.Security.Sessions
use fastauth.Security.Sessions.Reading.{user_of, live_user, user_of-read}
use fastauth.Security.Policy
use fastauth.Security.Policy.{set_active}
use fastauth.Security.Policy.Reading.{user_of-policy_read}
use fastauth.Security.Policy.Suspension.{HasNoCredentials, set_active-suspends}
use fastauth.Tests.Samples.{
  alice, grant, spent_grant, with_token, with_token-IsWellFormed, external, world,
}

abbrev config : RefreshTokenOptions
config = record { enabled = true; max_age_seconds = 3600; absolute_max_age = none }

abbrev client : Client
client = record { ip_address = none; user_agent = none }

rotate-reuse_example :
    let (r, w') =
      rotate external config "grant token" "next" client (world (with_token spent_grant)) in
    (r ≡ err refresh_token_reuse) × IsBurned "grant" (with_token spent_grant) w'.memory
unfolding get_refresh_token_by_hash find
rotate-reuse_example =
    rotate-reuse external config refl (world (with_token spent_grant))
      (with_token-IsWellFormed spent_grant) "grant token" spent_grant refl "next" client refl

rotate-replay_example :
    let (r, w') = rotate external config "grant token" "next" client (world (with_token grant)) in
    let (r', w'') = rotate external config "grant token" "later" client w' in
    ((token : RefreshToken) × (r ≡ ok (token, "fresh token"))
      × (token.family_id ≡ "grant")
      × (token.user_id ≡ "alice"))
    × (r' ≡ err refresh_token_reuse)
    × IsBurned "grant" w'.memory w''.memory
unfolding get_refresh_token_by_hash find family_over
rotate-replay_example =
    rotate-replay external config refl (world (with_token grant)) (with_token-IsWellFormed grant)
      "grant token" grant refl refl "next" "later" client client
      (λ e. ground (arith, eq_iff "fresh" "grant"))
      (λ e. ground (arith, eq_iff "fresh token" "grant token"))

abbrev sessions : SessionOptions
sessions = record {
  require_verified_user = true;
  max_age_seconds = 3600;
  idle_timeout_seconds = some 60;
}

user_of-read_example :
    user_of (Sessions.read external sessions "laptop token" (world (with_token grant))).0
    ≡ ok (some alice)
unfolding live_user get_session_by_token_hash find get_user_by_id get
user_of-read_example =
    user_of-read external sessions "laptop token" (world (with_token grant))
      (with_token-IsWellFormed grant)

user_of-policy_read_example :
    user_of (Policy.read external sessions none "laptop token" (world (with_token grant))).0
    ≡ ok (some alice)
unfolding live_user get_session_by_token_hash find get_user_by_id get
user_of-policy_read_example =
    user_of-policy_read external sessions "laptop token" (world (with_token grant))
      (with_token-IsWellFormed grant)

set_active-suspends_example :
    let (r, w') =
      set_active external sessions none
        (record {
          before_create = [];
          after_create = [];
          before_update = [];
          after_update = [];
          before_delete = [];
          after_delete = [];
        })
        (λ reason. reason == "")
        "alice"
        false
        "abuse"
        (world (with_token grant)) in
    let suspended = record alice { active = false; updated_at = 100 } in
    (r ≡ ok suspended)
    × (get w'.memory.users "alice" ≡ some suspended)
    × HasNoCredentials "alice" w'.memory
unfolding get
set_active-suspends_example =
    set_active-suspends external sessions none (λ reason. reason == "") "alice" "abuse" alice
      (world (with_token grant)) (with_token-IsWellFormed grant) refl refl

abbrev limited : RefreshTokenOptions
limited = record { enabled = true; max_age_seconds = 3600; absolute_max_age = some 9000 }

rotate-deadline_example :
    (token : RefreshToken) × ((rotate external limited "grant token" "next" client
        (world (with_token grant))).0
      ≡ ok (token, "fresh token"))
    × (token.family_created_at ≡ 1)
    × (token.expires_at ≤ 9001)
    × (token.expires_at ≤ 3600000101)
unfolding get_refresh_token_by_hash find family_over
rotate-deadline_example =
    rotate-deadline external limited (world (with_token grant)) "grant token" grant "next" client
      9000 refl refl (with_token-IsWellFormed grant) refl refl
