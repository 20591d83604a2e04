-- ===== src/Flows/Credentials.antt =====
-- src/fastauth/flows/credentials.py, over the database sessions under the account policy. The in-memory
-- adapter is a `PasswordRehashStore`. pydantic's validation of a request comes before these flows, and
-- the work that hides the time of a missing user has no result and is left out.
use fastauth.Prelude.{
  ℕ, String, Bool, not, ◌&&◌, ◌||◌, true, false, Option, none, some, if◌then◌else◌,
}
use fastauth.Domain.Errors.{
  Exec, pure, raise, ◌>>=◌, ◌>>◌, raise_if, account_locked, invalid_credentials, invalid_request,
}
use fastauth.Domain.Events.{Client, user_signed_out, session_revoked, account_locked_out}
use fastauth.Domain.Models.{User, Session, RefreshToken}
use fastauth.Flows.Context.{AuthContext, EmailPasswordOptions, CredentialDelivery}
use fastauth.Runtime.World.{World, publish}
use fastauth.Security.Policy.{PolicyRequest, authorize}
use fastauth.Security.Policy
use fastauth.Security.RefreshTokens.{revoke_for_session}
use fastauth.Security.RefreshTokens
use fastauth.Security.Sessions.{SessionContext}
use fastauth.Security.Tracker

pub record CredentialsView : Type 0 where
  pub token : String
  pub refresh_token : Option String

pub record AuthenticationResponse : Type 0 where
  pub user : User
  pub session : Session
  pub credentials : Option CredentialsView

abbrev pub is_bearer : CredentialDelivery → Bool
is_bearer CredentialDelivery.cookie = false
is_bearer (CredentialDelivery.bearer include_refresh_token) = true

-- `authentication_response`, with the token where the delivery is by bearer.
unfoldable pub response :
    User → SessionContext → CredentialDelivery → Option String → AuthenticationResponse
response user context CredentialDelivery.cookie refresh_token = record {
  user = user;
  session = context.session;
  credentials = none;
}
response user context (CredentialDelivery.bearer _) refresh_token = record {
  user = user;
  session = context.session;
  credentials = some (record { token = context.token; refresh_token = refresh_token });
}

-- A delivery that the options of the plugin do not allow.
unfoldable pub is_refused_delivery : Option EmailPasswordOptions → CredentialDelivery → Bool
is_refused_delivery none delivery = false
is_refused_delivery (some options) delivery = not options.allow_bearer_tokens && is_bearer delivery

unfoldable pub plain_of : Option (RefreshToken × String) → Option String
plain_of none = none
plain_of (some (row, plain)) = some plain

module _ (context : AuthContext) where
  unfoldable pub issue_refresh_token : SessionContext → String → Client → Exec World (Option String)
  issue_refresh_token issued user_id client = do
    minted ←
        RefreshTokens.issue context.external context.refresh_token user_id issued.session.id
          issued.session.authenticated_at client
    pure (plain_of minted)

  unfoldable pub maybe_issue_refresh_token :
      SessionContext → String → CredentialDelivery → Client → Exec World (Option String)
  maybe_issue_refresh_token issued user_id CredentialDelivery.cookie client = pure none
  maybe_issue_refresh_token issued user_id (CredentialDelivery.bearer include_refresh_token)
        client =
      if not include_refresh_token || not context.refresh_token.enabled
      then pure none
      else issue_refresh_token issued user_id client

  unfoldable pub validate_email_password_delivery : CredentialDelivery → Exec World (Unit {0})
  validate_email_password_delivery delivery =
      raise_if (is_refused_delivery context.email_password delivery) invalid_request

  unfoldable pub emit_lockout : String → Client → Option ℕ → Exec World (Unit {0})
  emit_lockout identifier client none = pure tt
  emit_lockout identifier client (some retry_after) =
      publish (account_locked_out identifier retry_after client)
      >> raise (account_locked retry_after)

  unfoldable pub record_failure_and_maybe_emit : String → Client → Exec World (Unit {0})
  record_failure_and_maybe_emit identifier client = do
    retry_after ← Tracker.record_failure context.external context.tracker identifier
    emit_lockout identifier client retry_after

  -- The answer to a missing user, a missing password and a wrong one.
  unfoldable pub reject_sign_in : {A : Type 0} → String → Client → Exec World A
  reject_sign_in identifier client =
      record_failure_and_maybe_emit identifier client >> raise invalid_credentials

  unfoldable pub end_session : Option SessionContext → Exec World (Unit {0})
  end_session none = pure tt
  end_session (some found) = do
    _ ← revoke_for_session found.session.id
    publish (user_signed_out found.user.id)
    publish (session_revoked found.user.id found.session.id)

  unfoldable pub sign_out_token : String → Exec World Bool
  sign_out_token token = do
    found ← Policy.read context.external context.session context.policy_hook token
    Policy.revoke context.external context.session context.policy_hook token
    end_session found
    pure true

  -- The field `success` of the response.
  unfoldable pub sign_out : Option String → Exec World Bool
  sign_out none = pure false
  sign_out (some token) = sign_out_token token

  unfoldable pub session_response :
      Option SessionContext → Exec World (Option AuthenticationResponse)
  session_response none = pure none
  session_response (some current) =
      pure (some (record { user = current.user; session = current.session; credentials = none }))

  unfoldable pub read_session : String → Exec World (Option AuthenticationResponse)
  read_session token = do
    current ← Policy.read context.external context.session context.policy_hook token
    session_response current

  unfoldable pub get_session : Option String → Exec World (Option AuthenticationResponse)
  get_session none = pure none
  get_session (some token) = read_session token
