-- ===== src/Flows/EmailOtp/Changes.antt =====
-- The password reset and the change of email by code, of src/fastauth/flows/email_otp.py.
use fastauth.Prelude.{
  ℕ, String, true, not, Option, none, some, [], ◌∷◌, ◌==◌, is_text, leb, if◌then◌else◌,
}
use fastauth.Domain.Enums.{ProviderId, purpose_value}
use fastauth.Domain.Errors.{
  Exec, pure, raise, returned, ◌>>=◌, ◌>>◌, raise_if, not_found, invalid_credentials, token_invalid,
}
use fastauth.Domain.Events.{
  Client, password_changed, password_reset_completed, password_reset_requested,
  sessions_revoked_all_of, user_email_change_requested, user_email_changed, otp_verified,
}
use fastauth.Domain.Models.{User, Account}
use fastauth.Flows.ChangeEmail.{is_taken}
use fastauth.Flows.Context.{AuthContext, Variable}
use fastauth.Flows.Creation.{new_account}
use fastauth.Flows.EmailOtp.{EmailOtpOptions, OtpPurpose, purpose_of, issue_otp, consume_otp}
use fastauth.Flows.Hooks.{update_user_with_hooks, reset_lockouts}
use fastauth.Memory.Accounts.{get_account_for_user, create_account, update_account}
use fastauth.Memory.Users.{get_user_by_email}
use fastauth.Runtime.World.{World, utc_now, query, modify, attempt_call, publish}
use fastauth.Security.Otp.{Digit}
use fastauth.Security.Passwords.{validate_password, hash_password}
use fastauth.Security.Policy
use fastauth.Security.RefreshTokens.{revoke_for_user}
use fastauth.Security.Tracker

module _ (context : AuthContext) (config : EmailOtpOptions) (random_digit : ℕ → Digit) where
  unfoldable pub request_reset_found : String → Client → Option User → Exec World (Unit {0})
  request_reset_found email client none = pure tt
  request_reset_found email client (some user) = do
    _ ← issue_otp context config random_digit email OtpPurpose.password_reset user.name []
    publish (password_reset_requested user.email client)

  unfoldable pub request_password_reset_otp : String → Client → Exec World (Unit {0})
  request_password_reset_otp email client = do
    user ← query (get_user_by_email context.tools.lower email)
    request_reset_found email client user

  -- A user who has no credential account gets one.
  unfoldable pub store_password : User → String → Option Account → Exec World (Unit {0})
  store_password user new_hash none = do
    account ← new_account context.external user.id ProviderId.credential (some new_hash)
    modify (create_account account)
  store_password user new_hash (some account) = do
    now ← utc_now context.external
    _ ← attempt_call (update_account now (record account { password = some new_hash }))
    pure tt

  unfoldable pub revoked_event : String → ℕ → Exec World (Unit {0})
  revoked_event user_id revoked =
      if leb revoked 0 then pure tt else publish (sessions_revoked_all_of user_id)

  unfoldable pub reset_found :
      String → String → String → Client → Option User → Exec World (Unit {0})
  reset_found email otp raw_password client none = raise token_invalid
  reset_found email otp raw_password client (some user) = do
    _ ← consume_otp context config email OtpPurpose.password_reset otp true
    new_hash ← hash_password context.external context.hasher raw_password
    account ← query (get_account_for_user user.id ProviderId.credential)
    store_password user new_hash account
    revoked ← Policy.revoke_all context.external context.session context.policy_hook user.id none
    _ ← revoke_for_user user.id
    reset_lockouts context user
    publish (password_changed user.id client)
    publish (password_reset_completed user.id client)
    revoked_event user.id revoked
    publish (otp_verified email (purpose_value (purpose_of OtpPurpose.password_reset)) user.id)

  unfoldable pub reset_password_with_otp : String → String → String → Client → Exec World (Unit {0})
  reset_password_with_otp email otp password client = do
    raw_password ← returned (validate_password context.password password)
    user ← query (get_user_by_email context.tools.lower email)
    reset_found email otp raw_password client user

  -- The code that was sent to the current address.
  unfoldable pub check_current : User → Option String → Exec World (Unit {0})
  check_current user none = raise invalid_credentials
  check_current user (some otp) = do
    _ ← consume_otp context config user.email OtpPurpose.verification otp true
    pure tt

  unfoldable pub check_current_if_required : User → Option String → Exec World (Unit {0})
  check_current_if_required user otp_for_current =
      if config.verify_current_email then check_current user otp_for_current else pure tt

  unfoldable pub request_email_change_otp :
      User → String → Option String → Client → Exec World (Unit {0})
  request_email_change_otp user new_email otp_for_current client = do
    raise_if (not config.change_enabled) (not_found "change_email_otp_endpoint")
    raise_if (new_email == user.email) token_invalid
    existing ← query (get_user_by_email context.tools.lower new_email)
    raise_if (is_taken user.id existing) token_invalid
    check_current_if_required user otp_for_current
    _ ← update_user_with_hooks context (record user { pending_email_change = some new_email })
    _ ←
        issue_otp context config random_digit new_email OtpPurpose.email_change user.name
          (("new_email", Variable.text new_email) ∷ [])
    publish (user_email_change_requested user.id user.email new_email client)

  unfoldable pub change_email_with_otp : User → String → String → Client → Exec World (Unit {0})
  change_email_with_otp user new_email otp client = do
    raise_if (not config.change_enabled) (not_found "change_email_otp_endpoint")
    raise_if (not (is_text user.pending_email_change new_email)) token_invalid
    _ ← consume_otp context config new_email OtpPurpose.email_change otp true
    _ ←
        update_user_with_hooks context
          (record user { email = new_email; email_verified = true; pending_email_change = none })
    Tracker.reset context.external context.tracker new_email
    publish (user_email_changed user.id new_email user.email client)
    publish (otp_verified new_email (purpose_value (purpose_of OtpPurpose.email_change)) user.id)
