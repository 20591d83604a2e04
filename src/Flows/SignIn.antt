-- ===== src/Flows/SignIn.antt =====
-- The sign-in of src/fastauth/flows/credentials.py.
pub mod Outcome
pub mod Authentic
pub mod Start
pub mod Success
use fastauth.Prelude.{String, Bool, not, ◌&&◌, Option, none, some, if◌then◌else◌}
use fastauth.Domain.Enums.{ProviderId}
use fastauth.Domain.Errors.{
  Exec, pure, ◌>>=◌, ◌>>◌, raise_if, invalid_credentials, email_not_verified,
}
use fastauth.Domain.Events.{Client, user_signed_in, session_created}
use fastauth.Domain.Models.{User, Account}
use fastauth.Flows.Context.{AuthContext, CredentialDelivery}
use fastauth.Flows.Credentials.{
  AuthenticationResponse, response, maybe_issue_refresh_token, validate_email_password_delivery,
  reject_sign_in,
}
use fastauth.Memory.Accounts.{get_account_for_user, replace_account_password}
use fastauth.Memory.Users.{get_user_by_email, get_user_by_username}
use fastauth.Runtime.World.{World, utc_now, query, update, publish}
use fastauth.Security.Passwords.{hash_password}
use fastauth.Security.Policy.{authorize}
use fastauth.Security.Policy
use fastauth.Security.Sessions.{SessionContext}
use fastauth.Security.Tracker

module _ (context : AuthContext) where
  -- A hash of old parameters is replaced, if it is still the stored one.
  unfoldable pub rehash : Account → String → String → Exec World (Unit {0})
  rehash account stored password = do
    upgraded ← hash_password context.external context.hasher password
    now ← utc_now context.external
    changed ← update (replace_account_password now account.id stored upgraded)
    raise_if (not changed) invalid_credentials

  unfoldable pub rehash_if_needed : Account → String → String → Exec World (Unit {0})
  rehash_if_needed account stored password =
      if context.hasher.needs_rehash stored then rehash account stored password else pure tt

  -- The session of a user who has signed in.
  unfoldable pub start_session :
      User → Client → CredentialDelivery → Exec World (AuthenticationResponse × SessionContext)
  start_session user client delivery = do
    issued ← Policy.create context.external context.session context.policy_hook user client
    publish (user_signed_in user.id user.email client)
    publish (session_created user.id issued.session.id client)
    refresh_token ← maybe_issue_refresh_token context issued user.id delivery client
    pure (response user issued delivery refresh_token, issued)

  -- What follows the check of the password.
  unfoldable pub admit_user :
      User
      → Account
      → String
      → String
      → String
      → Client
      → CredentialDelivery
      → Exec World (AuthenticationResponse × SessionContext)
  admit_user user account stored password identifier client delivery = do
    raise_if (context.require_verified_for_sign_in && not user.email_verified) email_not_verified
    authorize context.external context.session context.policy_hook
        (record { action = "password.sign_in"; user = user; session = none; api_key = none })
        context.session.require_verified_user none
    rehash_if_needed account stored password
    Tracker.reset context.external context.tracker identifier
    start_session user client delivery

  unfoldable pub check_password :
      User
      → Account
      → Option String
      → String
      → String
      → Client
      → CredentialDelivery
      → Exec World (AuthenticationResponse × SessionContext)
  check_password user account none password identifier client delivery =
      reject_sign_in context identifier client
  check_password user account (some stored) password identifier client delivery =
      if context.hasher.verify password stored
      then admit_user user account stored password identifier client delivery
      else reject_sign_in context identifier client

  unfoldable pub check_account :
      User
      → Option Account
      → String
      → String
      → Client
      → CredentialDelivery
      → Exec World (AuthenticationResponse × SessionContext)
  check_account user none password identifier client delivery =
      reject_sign_in context identifier client
  check_account user (some account) password identifier client delivery =
      check_password user account account.password password identifier client delivery

  unfoldable pub check_user :
      Option User
      → String
      → String
      → Client
      → CredentialDelivery
      → Exec World (AuthenticationResponse × SessionContext)
  check_user none password identifier client delivery = reject_sign_in context identifier client
  check_user (some user) password identifier client delivery = do
    account ← query (get_account_for_user user.id ProviderId.credential)
    check_account user account password identifier client delivery

  unfoldable pub complete_sign_in :
      Option User
      → String
      → String
      → Client
      → CredentialDelivery
      → Exec World (AuthenticationResponse × SessionContext)
  complete_sign_in user password identifier client delivery = do
    validate_email_password_delivery context delivery
    Tracker.check_locked context.external context.tracker identifier
    check_user user password identifier client delivery

  unfoldable pub sign_in_email :
      String
      → String
      → Client
      → CredentialDelivery
      → Exec World (AuthenticationResponse × SessionContext)
  sign_in_email email password client delivery = do
    user ← query (get_user_by_email context.tools.lower email)
    complete_sign_in user password email client delivery

  unfoldable pub sign_in_username :
      String
      → String
      → Client
      → CredentialDelivery
      → Exec World (AuthenticationResponse × SessionContext)
  sign_in_username username password client delivery = do
    user ← query (get_user_by_username username)
    complete_sign_in user password username client delivery
