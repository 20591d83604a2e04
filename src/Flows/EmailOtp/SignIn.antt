-- ===== src/Flows/EmailOtp/SignIn.antt =====
-- `sign_in_with_otp` and `verify_email_with_otp` of src/fastauth/flows/email_otp.py.
use fastauth.Prelude.{String, Bool, true, false, Option, none, some, if◌then◌else◌}
use fastauth.Domain.Enums.{ProviderId, provider_value, purpose_value}
use fastauth.Domain.Errors.{Exec, pure, raise, ◌>>=◌, ◌>>◌, invalid_credentials, token_invalid}
use fastauth.Domain.Events.{
  Client, user_signed_up, user_signed_in, user_email_verified, account_linked, session_created,
  otp_verified,
}
use fastauth.Domain.Models.{User}
use fastauth.Flows.Context.{AuthContext, CredentialDelivery}
use fastauth.Flows.Creation.{persist_user_account}
use fastauth.Flows.Credentials.{AuthenticationResponse, response, maybe_issue_refresh_token}
use fastauth.Flows.EmailOtp.{EmailOtpOptions, OtpPurpose, purpose_of, consume_otp}
use fastauth.Flows.Hooks.{update_user_with_hooks}
use fastauth.Flows.SignUp.{new_user}
use fastauth.Memory.Users.{get_user_by_email}
use fastauth.Runtime.World.{World, query, publish}
use fastauth.Security.Policy.{run_before, run_after}
use fastauth.Security.Policy
use fastauth.Security.Sessions.{SessionContext}
use fastauth.Security.Tracker

module _ (context : AuthContext) (config : EmailOtpOptions) where
  -- A new user without a password, whose email the code has verified.
  unfoldable pub register_with_otp : String → Option String → Client → Exec World User
  register_with_otp email name client = do
    fresh ← new_user context email name none "{}"
    transformed ← run_before context.hooks.before_create (record fresh { email_verified = true })
    user ← persist_user_account context.external transformed ProviderId.email_otp none
    _ ← run_after context.hooks.after_create user
    publish (user_signed_up user.id user.email client)
    publish (account_linked user.id (provider_value ProviderId.email_otp) client)
    pure user

  unfoldable pub signed_in_event : Bool → User → Client → Exec World (Unit {0})
  signed_in_event true user client = pure tt
  signed_in_event false user client = publish (user_signed_in user.id user.email client)

  unfoldable pub start_otp_session :
      String
      → Bool
      → User
      → Client
      → CredentialDelivery
      → Exec World (AuthenticationResponse × SessionContext)
  start_otp_session email is_new_user user client delivery = do
    issued ← Policy.create context.external context.session context.policy_hook user client
    signed_in_event is_new_user user client
    publish (session_created user.id issued.session.id client)
    publish (otp_verified email (purpose_value (purpose_of OtpPurpose.sign_in)) user.id)
    refresh_token ← maybe_issue_refresh_token context issued user.id delivery client
    pure (response user issued delivery refresh_token, issued)

  -- The code proves that the user has the address.
  unfoldable pub verified_user : User → Exec World User
  verified_user user =
      if user.email_verified
      then pure user
      else update_user_with_hooks context (record user { email_verified = true })

  unfoldable pub refuse_unknown : String → Exec World (AuthenticationResponse × SessionContext)
  refuse_unknown email = do
    _ ← Tracker.record_failure context.external context.tracker email
    raise invalid_credentials

  unfoldable pub sign_in_known :
      String
      → String
      → User
      → Client
      → CredentialDelivery
      → Exec World (AuthenticationResponse × SessionContext)
  sign_in_known email otp found client delivery = do
    _ ← consume_otp context config email OtpPurpose.sign_in otp true
    user ← verified_user found
    start_otp_session email false user client delivery

  unfoldable pub sign_in_new :
      String
      → String
      → Option String
      → Client
      → CredentialDelivery
      → Exec World (AuthenticationResponse × SessionContext)
  sign_in_new email otp name client delivery = do
    _ ← consume_otp context config email OtpPurpose.sign_in otp true
    user ← register_with_otp email name client
    start_otp_session email true user client delivery

  unfoldable pub sign_in_found :
      String
      → String
      → Option String
      → Client
      → CredentialDelivery
      → Option User
      → Exec World (AuthenticationResponse × SessionContext)
  sign_in_found email otp name client delivery none =
      if config.allow_sign_up
      then sign_in_new email otp name client delivery
      else refuse_unknown email
  sign_in_found email otp name client delivery (some user) =
      sign_in_known email otp user client delivery

  unfoldable pub sign_in_with_otp :
      String
      → String
      → Option String
      → Client
      → CredentialDelivery
      → Exec World (AuthenticationResponse × SessionContext)
  sign_in_with_otp email otp name client delivery = do
    Tracker.check_locked context.external context.tracker email
    user ← query (get_user_by_email context.tools.lower email)
    sign_in_found email otp name client delivery user

  unfoldable pub verify_found : String → String → Client → Option User → Exec World (Unit {0})
  verify_found email otp client none = raise token_invalid
  verify_found email otp client (some user) = do
    _ ← consume_otp context config email OtpPurpose.verification otp true
    _ ← verified_user user
    publish (user_email_verified user.id user.email client)
    publish (otp_verified email (purpose_value (purpose_of OtpPurpose.verification)) user.id)

  unfoldable pub verify_email_with_otp : String → String → Client → Exec World (Unit {0})
  verify_email_with_otp email otp client = do
    user ← query (get_user_by_email context.tools.lower email)
    verify_found email otp client user
