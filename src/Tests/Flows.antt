-- ===== src/Tests/Flows.antt =====
-- The flows on a concrete state.
use fastauth.Prelude.{ℕ, String, ◌≡◌, refl, ap, Bool, true, false, Option, none, some, arith, ◌==◌}
use fastauth.Dict.{get, put, find}
use fastauth.Domain.Models.{Session, RefreshToken}
use fastauth.Domain.Errors.{ok, err, not_found, policy_denied}
use fastauth.Memory.{Memory}
use fastauth.Memory.Ops.{Op, step}
use fastauth.Memory.Invariant.Steps.{step-IsWellFormed}
use fastauth.Memory.Users.{set_user_active, get_user_by_id}
use fastauth.Memory.RefreshTokens.{get_refresh_token_by_hash}
use fastauth.Domain.Events.{Client}
use fastauth.Security.RefreshTokens.{RefreshTokenOptions, family_over}
use fastauth.Security.Sessions.{SessionOptions}
use fastauth.Flows.Refresh.{refresh_session}
use fastauth.Flows.Refresh.Suspended.{refresh_session-suspended}
use fastauth.Flows.Sessions.{revoke_session}
use fastauth.Flows.Sessions.Revocation.{revoke_session-foreign, revoke_session-own}
use fastauth.Tests.Samples.{
  alice, bob, laptop, grant, with_token, with_token-IsWellFormed, external, world,
}

is_user : String → Option Session → Bool
is_user user_id none = false
is_user user_id (some s) = s.user_id == user_id

laptop_foreign :
    (s : Session) → get (with_token grant).sessions "laptop" ≡ some s → (s.user_id == "bob") ≡ false
unfolding get is_user
laptop_foreign s there = ground (arith, ap (λ o. is_user "bob" o) there)

revoke_session-foreign_example :
    revoke_session bob "laptop" (world (with_token grant))
    ≡ (err (not_found "session"), world (with_token grant))
revoke_session-foreign_example =
    revoke_session-foreign bob "laptop" (world (with_token grant)) (with_token-IsWellFormed grant)
      laptop_foreign

revoke_session-own_example :
    let (r, w') = revoke_session alice "laptop" (world (with_token grant)) in
    ((count : ℕ) × (r
        ≡ ok (record { revoked = 1; revoked_sessions = 1; revoked_refresh_tokens = count })))
    × (get w'.memory.sessions "laptop" ≡ none)
    × ((k : String) (t : RefreshToken)
        → get w'.memory.refresh_tokens k ≡ some t
        → (t.session_id == "laptop") ≡ false)
unfolding get
revoke_session-own_example =
    revoke_session-own alice "laptop" (world (with_token grant)) (with_token-IsWellFormed grant)
      laptop refl refl

abbrev suspended : Memory
suspended = step (Op.set_user_active 9 "alice" false) (with_token grant)

abbrev config : RefreshTokenOptions
config = record { enabled = true; max_age_seconds = 3600; absolute_max_age = none }

abbrev sessions : SessionOptions
sessions = record {
  require_verified_user = true;
  max_age_seconds = 3600;
  idle_timeout_seconds = none;
}

abbrev client : Client
client = record { ip_address = none; user_agent = none }

refresh_session-suspended_example :
    refresh_session external config sessions none "grant token" true client (world suspended)
    ≡ (err policy_denied, record (world suspended) { ticks = 1 })
unfolding step set_user_active get put get_refresh_token_by_hash find get_user_by_id family_over
refresh_session-suspended_example =
    refresh_session-suspended external config sessions none "grant token" client (world suspended)
      grant (record alice { active = false; updated_at = 9 }) refl
      (step-IsWellFormed (Op.set_user_active 9 "alice" false) (with_token grant)
        (with_token-IsWellFormed grant))
      refl refl refl refl
