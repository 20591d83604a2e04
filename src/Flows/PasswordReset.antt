-- ===== src/Flows/PasswordReset.antt =====
-- src/fastauth/flows/password_reset.py. The field `success` of the responses is always true, and left
-- out.
pub mod Revocation
pub mod Completion
use fastauth.Prelude.{ℕ, String, Option, none, some, [], ◌∷◌, leb, if◌then◌else◌}
use fastauth.Domain.Enums.{ProviderId, VerificationPurpose, purpose_value}
use fastauth.Domain.Errors.{Exec, pure, raise, returned, ◌>>=◌, ◌>>◌, token_invalid}
use fastauth.Domain.Events.{
  Client, otp_generated, password_changed, password_reset_completed, password_reset_requested,
  sessions_revoked_all,
}
use fastauth.Domain.Models.{User, Account}
use fastauth.Flows.Context.{AuthContext, EmailMessageKind, Variable}
use fastauth.Flows.Hooks.{reset_lockouts}
use fastauth.Flows.Mail.{
  ttl_minutes, issue_challenge, redirect_of, base_of, send_template, with_redirect, consume_token,
}
use fastauth.Memory.Accounts.{get_account_for_user, update_account}
use fastauth.Memory.Users.{get_user_by_email}
use fastauth.Runtime.World.{World, utc_now, generate_pair, query, attempt_call, publish}
use fastauth.Security.Passwords.{validate_password, hash_password}
use fastauth.Security.Policy
use fastauth.Security.RefreshTokens.{revoke_for_user}
use Prim.Native.String.{◌++◌}

module _ (context : AuthContext) where
  -- The link, and the message that carries it.
  unfoldable pub mail_reset : User → String → Option String → Option String → Exec World (Unit {0})
  mail_reset user plain redirect_url app_base_url = do
    redirect ← redirect_of context redirect_url
    reset_base_url ← base_of context app_base_url context.password_reset
    let params = with_redirect (("token", plain) ∷ ("email", user.email) ∷ []) redirect
    send_template context "reset"
        (("reset_url", Variable.text (reset_base_url ++ "?" ++ context.tools.urlencode params))
          ∷ ("name", Variable.optional user.name)
          ∷ ("expires_in_minutes", Variable.number (ttl_minutes context.password_reset.expires_in))
          ∷ [])
        EmailMessageKind.password_reset user.email context.password_reset.subject

  unfoldable pub forgot_found :
      String → Option String → Client → Option String → Option User → Exec World (Unit {0})
  forgot_found email redirect_url client app_base_url none =
      publish (password_reset_requested email client)
  forgot_found email redirect_url client app_base_url (some user) = do
    pair ← generate_pair context.external
    issue_challenge context user.email pair.hashed VerificationPurpose.password_reset
        context.password_reset.expires_in
    publish (otp_generated user.email (purpose_value VerificationPurpose.password_reset) pair.plain)
    mail_reset user pair.plain redirect_url app_base_url
    publish (password_reset_requested user.email client)

  unfoldable pub forgot_password :
      String → Option String → Client → Option String → Exec World (Unit {0})
  forgot_password email redirect_url client app_base_url = do
    user ← query (get_user_by_email context.tools.lower email)
    forgot_found email redirect_url client app_base_url user

  unfoldable pub revoked_events : String → Client → ℕ → Exec World (Unit {0})
  revoked_events user_id client revoked =
      if leb revoked 0 then pure tt else publish (sessions_revoked_all user_id client)

  unfoldable pub reset_account : User → String → Client → Option Account → Exec World (Unit {0})
  reset_account user raw_password client none = raise token_invalid
  reset_account user raw_password client (some account) = do
    password ← hash_password context.external context.hasher raw_password
    now ← utc_now context.external
    _ ← attempt_call (update_account now (record account { password = some password }))
    revoked ← Policy.revoke_all context.external context.session context.policy_hook user.id none
    _ ← revoke_for_user user.id
    reset_lockouts context user
    publish (password_changed user.id client)
    publish (password_reset_completed user.id client)
    revoked_events user.id client revoked

  unfoldable pub reset_user : String → Client → Option User → Exec World (Unit {0})
  reset_user raw_password client none = raise token_invalid
  reset_user raw_password client (some user) = do
    account ← query (get_account_for_user user.id ProviderId.credential)
    reset_account user raw_password client account

  unfoldable pub reset_password : String → String → String → Client → Exec World (Unit {0})
  reset_password email token new_password client = do
    raw_password ← returned (validate_password context.password new_password)
    _ ←
        consume_token context email VerificationPurpose.password_reset
          (context.external.sha256 token)
    user ← query (get_user_by_email context.tools.lower email)
    reset_user raw_password client user
