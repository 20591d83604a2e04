-- ===== src/Flows/Refresh/Suspended.antt =====
-- `refresh_session` of src/fastauth/flows/refresh.py for an account that is suspended.
use fastauth.Prelude.{ℕ, suc, String, ◌≡◌, refl, Bool, true, false, Option, none, some}
use fastauth.Domain.Models.{User, RefreshToken}
use fastauth.Domain.Errors.{err, Exec, policy_denied}
use fastauth.Memory.Invariant.Defs.{IsWellFormed}
use fastauth.Memory.Users.{get_user_by_id}
use fastauth.Memory.RefreshTokens.{get_refresh_token_by_hash}
use fastauth.Runtime.World.{External, World, query}
use fastauth.Domain.Events.{Client}
use fastauth.Security.RefreshTokens.{RefreshTokenOptions}
use fastauth.Security.RefreshTokens.Replay.{is_usable, get_valid-usable}
use fastauth.Security.Sessions.{SessionOptions}
use fastauth.Security.Policy.{PolicyRequest, authorize}
use fastauth.Security.Policy
use fastauth.Flows.Refresh.{refresh_user, refresh_session}

module _ (external : External) (sessions : SessionOptions)
    (hook : Option (PolicyRequest → Exec World Bool)) where
  authorize-suspended :
      (request : PolicyRequest) (require_verified : Bool) (max_age : Option ℕ) (w : World)
      → request.user.active ≡ false
      → authorize external sessions hook request require_verified max_age w ≡ (err policy_denied, w)
  unfolding authorize
  authorize-suspended request require_verified max_age w suspended = simp suspended refl

  renew-suspended :
      (user : User) (authenticated_at : Option ℕ) (client : Client) (w : World)
      → user.active ≡ false
      → Policy.renew external sessions hook user authenticated_at client w ≡ (err policy_denied, w)
  unfolding Policy.renew
  renew-suspended user authenticated_at client w suspended =
      let request : PolicyRequest = record {
        action = "session.refresh";
        user = user;
        session = none;
        api_key = none;
      } in
      rw (authorize-suspended request sessions.require_verified_user none w suspended) refl

-- With refresh tokens enabled and well-formed tables: let a refresh token be presented with bearer
-- delivery whose stored row is not consumed, has not expired and is within the absolute age of its
-- family, and let the stored user of that row be suspended. Then the refresh raises the policy error,
-- and nothing is changed but that the clock was read once: no session is made, and the token is not
-- consumed.
pub refresh_session-suspended :
    (external : External) (config : RefreshTokenOptions) (sessions : SessionOptions)
    (hook : Option (PolicyRequest → Exec World Bool)) (plain_token : String) (client : Client)
    (w : World) (old : RefreshToken) (user : User)
    → config.enabled ≡ true
    → IsWellFormed w.memory
    → get_refresh_token_by_hash (external.sha256 plain_token) w.memory ≡ some old
    → is_usable config (external.clock w.ticks) old ≡ true
    → get_user_by_id old.user_id w.memory ≡ some user
    → user.active ≡ false
    → refresh_session external config sessions hook plain_token true client w
      ≡ (err policy_denied, record w { ticks = suc w.ticks })
unfolding refresh_session refresh_user query
refresh_session-suspended external config sessions hook plain_token client w old user on wf named
      usable owner suspended =
    simp on (
      rw
        (
          get_valid-usable external config on w wf plain_token old named usable,
          owner,
          renew-suspended external sessions hook user old.authenticated_at client
              (record w { ticks = suc w.ticks }) suspended,
        )
        refl)
