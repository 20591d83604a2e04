-- ===== src/Flows/Refresh.antt =====
-- src/fastauth/flows/refresh.py, over the database sessions under the account policy, which can renew.
-- The in-memory adapter does not raise on a deletion, so the compensations for that do not occur.
pub mod Suspended
use fastauth.Prelude.{ℕ, String, Bool, true, not, Option, none, some, ◌==◌, if◌then◌else◌}
use fastauth.Domain.Models.{User, Session, RefreshToken}
use fastauth.Domain.Errors.{
  Result, ok, err, Exec, pure, raise, ◌>>=◌, ◌>>◌, raise_if, token_invalid, invalid_request,
}
use fastauth.Memory.Users.{get_user_by_id}
use fastauth.Memory.Sessions.{delete_session}
use fastauth.Runtime.World.{External, World, query, modify}
use fastauth.Domain.Events.{Client}
use fastauth.Security.RefreshTokens.{RefreshTokenOptions, get_valid, revoke_family}
use fastauth.Security.RefreshTokens
use fastauth.Security.Sessions.{SessionOptions, SessionContext}
use fastauth.Security.Policy.{PolicyRequest}
use fastauth.Security.Policy

-- The response: the new session with its tokens.
pub record Refreshed : Type 0 where
  pub user : User
  pub context : SessionContext
  pub refresh_token : String

module _ (external : External) (config : RefreshTokenOptions) (sessions : SessionOptions)
    (hook : Option (PolicyRequest → Exec World Bool)) where
  -- `except BaseException: await delete_session(...); raise`
  unfoldable pub rotate_or_drop : String → String → Client → Exec World (RefreshToken × String)
  rotate_or_drop plain_token session_id client w =
      let (r, w') = RefreshTokens.rotate external config plain_token session_id client w in
      elim r [
        | ok rotated ↦ (ok rotated, w')
        | err e ↦ (modify (delete_session session_id) >> raise e) w'
      ]

  unfoldable pub drop_replaced : String → String → Exec World (Unit {0})
  drop_replaced old_id new_id = if old_id == new_id then pure tt else modify (delete_session old_id)

  unfoldable pub finish_refresh :
      RefreshToken → User → SessionContext → RefreshToken × String → Exec World Refreshed
  finish_refresh existing user context (new_record, new_plain) =
      if not (new_record.user_id == user.id)
      then modify (delete_session context.session.id) >> raise token_invalid
      else drop_replaced existing.session_id context.session.id
        >> pure (record { user = user; context = context; refresh_token = new_plain })

  unfoldable pub refresh_user : String → Client → RefreshToken → Option User → Exec World Refreshed
  refresh_user plain_token client existing none =
      revoke_family existing.family_id >> raise token_invalid
  refresh_user plain_token client existing (some user) = do
    context ← Policy.renew external sessions hook user existing.authenticated_at client
    rotated ← rotate_or_drop plain_token context.session.id client
    finish_refresh existing user context rotated

  unfoldable pub refresh_session : String → Bool → Client → Exec World Refreshed
  refresh_session plain_token is_bearer client = do
    raise_if (not config.enabled) token_invalid
    raise_if (not is_bearer) invalid_request
    existing ← get_valid external config plain_token
    user ← query (get_user_by_id existing.user_id)
    refresh_user plain_token client existing user
