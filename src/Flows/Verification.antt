-- ===== src/Flows/Verification.antt =====
-- src/fastauth/flows/verification.py. The field `success` of the response is always true, and left out.
use fastauth.Prelude.{String, true, Option, none, some, [], ◌∷◌, if◌then◌else◌}
use fastauth.Domain.Enums.{VerificationPurpose, purpose_value}
use fastauth.Domain.Errors.{Exec, pure, raise, ◌>>=◌, ◌>>◌, token_invalid}
use fastauth.Domain.Events.{Client, otp_generated, email_verification_sent, user_email_verified}
use fastauth.Domain.Models.{User}
use fastauth.Flows.Context.{AuthContext, CredentialDelivery, EmailMessageKind, Variable}
use fastauth.Flows.Credentials.{
  AuthenticationResponse, response, maybe_issue_refresh_token, validate_email_password_delivery,
}
use fastauth.Flows.Hooks.{update_user_with_hooks}
use fastauth.Flows.Mail.{
  ttl_minutes, issue_challenge, redirect_of, base_of, send_template, with_redirect, consume_token,
}
use fastauth.Memory.Users.{get_user_by_email}
use fastauth.Runtime.World.{World, generate_pair, query, publish}
use fastauth.Security.Policy
use fastauth.Security.Sessions.{SessionContext}
use Prim.Native.String.{◌++◌}

module _ (context : AuthContext) where
  -- The link, and the message that carries it.
  unfoldable pub mail_verification :
      User → String → Option String → Option String → Exec World (Unit {0})
  mail_verification user plain redirect_url app_base_url = do
    redirect ← redirect_of context redirect_url
    verify_base_url ← base_of context app_base_url context.email_verification
    let params = with_redirect (("token", plain) ∷ ("email", user.email) ∷ []) redirect
    send_template context "verification"
        (("verify_url", Variable.text (verify_base_url ++ "?" ++ context.tools.urlencode params))
          ∷ ("name", Variable.optional user.name)
          ∷ (
            "expires_in_minutes",
            Variable.number (ttl_minutes context.email_verification.expires_in),
          )
          ∷ [])
        EmailMessageKind.verification user.email context.email_verification.subject

  unfoldable pub send_unverified :
      User → Option String → Client → Option String → Exec World (Unit {0})
  send_unverified user redirect_url client app_base_url = do
    pair ← generate_pair context.external
    issue_challenge context user.email pair.hashed VerificationPurpose.email_verification
        context.email_verification.expires_in
    publish
        (otp_generated user.email (purpose_value VerificationPurpose.email_verification) pair.plain)
    mail_verification user pair.plain redirect_url app_base_url
    publish (email_verification_sent user.email client)

  unfoldable pub send_found :
      Option String → Client → Option String → Option User → Exec World (Unit {0})
  send_found redirect_url client app_base_url none = pure tt
  send_found redirect_url client app_base_url (some user) =
      if user.email_verified then pure tt else send_unverified user redirect_url client app_base_url

  unfoldable pub send_verification_email :
      String → Option String → Client → Option String → Exec World (Unit {0})
  send_verification_email email redirect_url client app_base_url = do
    user ← query (get_user_by_email context.tools.lower email)
    send_found redirect_url client app_base_url user

  unfoldable pub verify_user :
      Client
      → CredentialDelivery
      → Option User
      → Exec World (AuthenticationResponse × SessionContext)
  verify_user client delivery none = raise token_invalid
  verify_user client delivery (some found) = do
    user ← update_user_with_hooks context (record found { email_verified = true })
    issued ← Policy.create context.external context.session context.policy_hook user client
    publish (user_email_verified user.id user.email client)
    refresh_token ← maybe_issue_refresh_token context issued user.id delivery client
    pure (response user issued delivery refresh_token, issued)

  unfoldable pub verify_email :
      String
      → String
      → Client
      → CredentialDelivery
      → Exec World (AuthenticationResponse × SessionContext)
  verify_email email token client delivery = do
    validate_email_password_delivery context delivery
    _ ←
        consume_token context email VerificationPurpose.email_verification
          (context.external.sha256 token)
    user ← query (get_user_by_email context.tools.lower email)
    verify_user client delivery user
