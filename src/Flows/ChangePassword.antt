-- ===== src/Flows/ChangePassword.antt =====
-- src/fastauth/flows/change_password.py.
use fastauth.Prelude.{
  ℕ, suc, String, Bool, true, false, Option, none, some, List, [], ◌∷◌, ◌==◌, if◌then◌else◌,
}
use fastauth.Domain.Enums.{ProviderId}
use fastauth.Domain.Errors.{
  Exec, pure, raise, returned, ◌>>=◌, ◌>>◌, not_found, invalid_credentials,
}
use fastauth.Domain.Events.{Client, password_changed}
use fastauth.Domain.Models.{User, Session, Account}
use fastauth.Flows.Context.{AuthContext}
use fastauth.Flows.Hooks.{reset_lockouts}
use fastauth.Flows.PasswordReset.{revoked_events}
use fastauth.Memory.Accounts.{get_account_for_user, update_account}
use fastauth.Memory.Sessions.{list_sessions_for_user, delete_session}
use fastauth.Runtime.World.{World, utc_now, query, modify, attempt_call, publish}
use fastauth.Security.Passwords.{validate_password, hash_password}
use fastauth.Security.RefreshTokens.{revoke_for_user_except_session}

-- The loop over the sessions of the user, with the number of those that it deletes.
unfoldable pub revoke_listed : String → ℕ → List Session → Exec World ℕ
revoke_listed current_session_id revoked [] = pure revoked
revoke_listed current_session_id revoked (session ∷ sessions) =
    let skip = revoke_listed current_session_id revoked sessions in
    let drop = revoke_listed current_session_id (suc revoked) sessions in
    if session.id == current_session_id then skip else modify (delete_session session.id) >> drop

unfoldable pub revoke_other_devices : String → String → Bool → Exec World ℕ
revoke_other_devices user_id current_session_id false = pure 0
revoke_other_devices user_id current_session_id true = do
  sessions ← query (list_sessions_for_user user_id)
  revoked ← revoke_listed current_session_id 0 sessions
  _ ← revoke_for_user_except_session user_id (some current_session_id)
  pure revoked

module _ (context : AuthContext) where
  unfoldable pub replace_password :
      User → Account → String → String → Bool → Client → Exec World (Unit {0})
  replace_password user account current_session_id new_password revoke_other_sessions client = do
    raw_password ← returned (validate_password context.password new_password)
    password ← hash_password context.external context.hasher raw_password
    now ← utc_now context.external
    _ ← attempt_call (update_account now (record account { password = some password }))
    reset_lockouts context user
    revoked ← revoke_other_devices user.id current_session_id revoke_other_sessions
    publish (password_changed user.id client)
    revoked_events context user.id client revoked

  unfoldable pub change_stored :
      User
      → Account
      → Option String
      → String
      → String
      → String
      → Bool
      → Client
      → Exec World (Unit {0})
  change_stored user account none current_session_id current_password new_password
        revoke_other_sessions client =
      raise (not_found "credential_account")
  change_stored user account (some stored) current_session_id current_password new_password
        revoke_other_sessions client =
      if context.hasher.verify current_password stored
      then replace_password user account current_session_id new_password revoke_other_sessions
          client
      else raise invalid_credentials

  unfoldable pub change_account :
      User → Option Account → String → String → String → Bool → Client → Exec World (Unit {0})
  change_account user none current_session_id current_password new_password revoke_other_sessions
        client =
      raise (not_found "credential_account")
  change_account user (some account) current_session_id current_password new_password
        revoke_other_sessions client =
      change_stored user account account.password current_session_id current_password new_password
        revoke_other_sessions client

  unfoldable pub change_password :
      User → String → String → String → Bool → Client → Exec World (Unit {0})
  change_password user current_session_id current_password new_password revoke_other_sessions
        client =
      do
        account ← query (get_account_for_user user.id ProviderId.credential)
        change_account user account current_session_id current_password new_password
            revoke_other_sessions client
