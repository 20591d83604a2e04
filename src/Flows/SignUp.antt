-- ===== src/Flows/SignUp.antt =====
-- The sign-up of src/fastauth/flows/credentials.py, and `create_user` of
-- src/fastauth/flows/server_users.py.
use fastauth.Prelude.{
  String, Bool, true, false, not, ◌&&◌, Option, none, some, is_some, if◌then◌else◌,
}
use fastauth.Domain.Enums.{ProviderId}
use fastauth.Domain.Errors.{Exec, pure, returned, ◌>>=◌, ◌>>◌, raise_if, invalid_request}
use fastauth.Domain.Events.{Client, user_signed_up, user_created, session_created}
use fastauth.Domain.Models.{User}
use fastauth.Flows.Context.{AuthContext, EmailPasswordOptions, CredentialDelivery}
use fastauth.Flows.Creation.{persist_user_account}
use fastauth.Flows.Credentials.{
  AuthenticationResponse, response, maybe_issue_refresh_token, validate_email_password_delivery,
}
use fastauth.Flows.Verification.{send_verification_email}
use fastauth.Runtime.World.{World, utc_now, new_id, publish}
use fastauth.Security.Passwords.{validate_password, hash_password}
use fastauth.Security.Policy.{run_before, run_after}
use fastauth.Security.Policy
use fastauth.Security.Sessions.{SessionContext}

-- The fields of `SignUpEmailRequest`.
pub record SignUpRequest : Type 0 where
  pub email : String
  pub password : String
  pub name : Option String
  pub username : Option String
  pub delivery : CredentialDelivery

pub data SignUpResponse : Type 0 where
  authenticated : AuthenticationResponse → SessionContext → SignUpResponse
  verification_required : User → SignUpResponse

unfoldable pub lacks_username : Option EmailPasswordOptions → Option String → Bool
lacks_username none username = false
lacks_username (some options) username = options.require_username && not (is_some username)

module _ (context : AuthContext) where
  -- `User(email=..., name=..., username=..., metadata=...)`
  unfoldable pub new_user : String → Option String → Option String → String → Exec World User
  new_user email name username metadata = do
    id ← new_id context.external
    created_at ← utc_now context.external
    updated_at ← utc_now context.external
    let user : User = record {
      id = id;
      email = email;
      username = username;
      name = name;
      image = none;
      email_verified = false;
      active = true;
      pending_email_change = none;
      metadata = metadata;
      created_at = created_at;
      updated_at = updated_at;
    }
    pure user

  -- The user and its credential account, between the hooks.
  unfoldable pub register :
      String → String → Option String → Option String → String → Exec World User
  register email password name username metadata = do
    raw_password ← returned (validate_password context.password password)
    password_hash ← hash_password context.external context.hasher raw_password
    fresh ← new_user email name username metadata
    transformed ← run_before context.hooks.before_create fresh
    user ←
        persist_user_account context.external transformed ProviderId.credential (some password_hash)
    _ ← run_after context.hooks.after_create user
    pure user

  unfoldable pub await_verification : User → Client → Option String → Exec World SignUpResponse
  await_verification user client app_base_url = do
    publish (user_signed_up user.id user.email client)
    send_verification_email context user.email none client app_base_url
    pure (verification_required user)

  unfoldable pub start_session : User → Client → CredentialDelivery → Exec World SignUpResponse
  start_session user client delivery = do
    issued ← Policy.create context.external context.session context.policy_hook user client
    publish (user_signed_up user.id user.email client)
    publish (session_created user.id issued.session.id client)
    refresh_token ← maybe_issue_refresh_token context issued user.id delivery client
    pure (authenticated (response user issued delivery refresh_token) issued)

  unfoldable pub sign_up_email : SignUpRequest → Client → Option String → Exec World SignUpResponse
  sign_up_email request client app_base_url = do
    validate_email_password_delivery context request.delivery
    raise_if (lacks_username context.email_password request.username) invalid_request
    user ← register request.email request.password request.name request.username "{}"
    if context.require_verified_for_sign_in && not user.email_verified
        then await_verification user client app_base_url
        else start_session user client request.delivery

  -- The user is provisioned without a session and without mail.
  unfoldable pub create_user :
      String → String → Option String → Option String → String → Exec World User
  create_user email password name username metadata = do
    user ← register email password name username metadata
    publish (user_created user.id user.email)
    pure user
