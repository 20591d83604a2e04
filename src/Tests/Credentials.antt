-- ===== src/Tests/Credentials.antt =====
-- A sign-in, a password reset and a cross-site request on a concrete state.
use fastauth.Prelude.{◌≡◌, refl, none, some, [], ◌∷◌, ◌++◌}
use fastauth.Dict.{Dict, get, put, find}
use fastauth.Domain.Enums.{ProviderId, provider_value, purpose_value}
use fastauth.Domain.Models.{User, Account, Session}
use fastauth.Flows.Context.{CredentialDelivery}
use fastauth.Flows.PasswordReset.{reset_password}
use fastauth.Flows.PasswordReset.Completion.{HasNewPassword, reset_password-HasNoCredentials}
use fastauth.Flows.SignIn.{complete_sign_in}
use fastauth.Flows.SignIn.Authentic.{IsAuthentic, complete_sign_in-IsAuthentic}
use fastauth.Memory.{Memory}
use fastauth.Memory.Accounts.{get_account_for_user}
use fastauth.Memory.Users.{get_user_by_email}
use fastauth.Security.Policy.Suspension.{HasNoCredentials}
use fastauth.Web.Csrf.{Request, admits, header_table, origin_of}
use fastauth.Web.Csrf.Origins.{IsTrusted, admits-IsTrusted}
use fastauth.Tests.Context.{
  context_with, no_lockout, tools, csrf, client, with_account, with_account-IsWellFormed,
}
use fastauth.Tests.Samples.{alice, world}

-- The session of the sign-in.
abbrev issued : Session
issued = record {
  authenticated_at = some 100;
  id = "fresh";
  user_id = "alice";
  token_hash = "fresh token";
  expires_at = 3600000101;
  ip_address = none;
  user_agent = none;
  created_at = 102;
  updated_at = 103;
}

complete_sign_in-IsAuthentic_example :
    IsAuthentic
      (context_with no_lockout)
      "secret"
      "alice"
      client
      CredentialDelivery.cookie
      (some alice)
      with_account
unfolding complete_sign_in get_account_for_user find get put provider_value
    fastauth.Flows.Credentials.validate_email_password_delivery
    fastauth.Flows.Credentials.is_refused_delivery
    fastauth.Flows.Credentials.maybe_issue_refresh_token fastauth.Flows.Credentials.response
    fastauth.Security.Tracker.check_locked fastauth.Security.Tracker.reset
    fastauth.Security.Lockout.reset fastauth.Flows.SignIn.check_user
    fastauth.Flows.SignIn.check_account fastauth.Flows.SignIn.check_password
    fastauth.Flows.SignIn.admit_user fastauth.Flows.SignIn.rehash_if_needed
    fastauth.Flows.SignIn.start_session fastauth.Runtime.World.query fastauth.Runtime.World.utc_now
    fastauth.Runtime.World.new_id fastauth.Runtime.World.generate_pair fastauth.Runtime.World.modify
    fastauth.Runtime.World.publish fastauth.Security.Policy.authorize
    fastauth.Security.Policy.check_age fastauth.Security.Policy.ask_hook
    fastauth.Security.Policy.create fastauth.Security.Policy.check_issued_user
    fastauth.Security.Policy.check_current fastauth.Security.Sessions.create
    fastauth.Security.Sessions.renew fastauth.Memory.Sessions.create_session
    fastauth.Memory.Users.get_user_by_id
complete_sign_in-IsAuthentic_example =
    complete_sign_in-IsAuthentic (context_with no_lockout) "secret" "alice" client
      CredentialDelivery.cookie (some alice) (world with_account)
      (
        record { user = alice; session = issued; credentials = none },
        record { user = alice; session = issued; token = "fresh token" },
      )
      refl

reset_password-HasNoCredentials_example :
    let w' =
      (reset_password
        (context_with no_lockout)
        "alice"
        "right"
        "changed"
        client
        (world with_account)).1 in
    (user : User) × (account : Account) × (get_user_by_email tools.lower "alice" with_account
      ≡ some user)
    × (get_account_for_user user.id ProviderId.credential with_account ≡ some account)
    × HasNoCredentials user.id w'.memory
    × HasNewPassword (context_with no_lockout) "changed" account "fresh token" w'.memory
unfolding reset_password find purpose_value get_user_by_email get_account_for_user get put
    provider_value fastauth.Dict.keys_where fastauth.Dict.remove fastauth.Dict.remove_all
    fastauth.Dict.values fastauth.Security.Passwords.validate_password
    fastauth.Security.Passwords.hash_password fastauth.Flows.Mail.consume_token
    fastauth.Flows.Mail.by_status fastauth.Flows.Mail.accepted_row fastauth.Runtime.World.utc_now
    fastauth.Runtime.World.attempt_call fastauth.Runtime.World.query fastauth.Runtime.World.update
    fastauth.Runtime.World.publish fastauth.Memory.Verifications.attempt_verification
    fastauth.Memory.Verifications.write_back
    fastauth.Storage.Verification.apply_verification_attempt
    fastauth.Storage.Verification.decide_attempt fastauth.Flows.PasswordReset.reset_user
    fastauth.Flows.PasswordReset.reset_account fastauth.Flows.PasswordReset.revoked_events
    fastauth.Flows.Hooks.reset_lockouts fastauth.Flows.Hooks.reset_username
    fastauth.Memory.Accounts.update_account
    fastauth.Memory.RefreshTokens.delete_refresh_tokens_for_user
    fastauth.Memory.RefreshTokens.doomed_families fastauth.Memory.RefreshTokens.families_where
    fastauth.Memory.RefreshTokens.pop_sessions fastauth.Memory.RefreshTokens.revoke_where
    fastauth.Memory.Sessions.delete_sessions_for_user fastauth.Memory.Sessions.doomed_sessions
    fastauth.Security.Policy.revoke_all fastauth.Security.Sessions.revoke_all
    fastauth.Security.RefreshTokens.revoke_for_user fastauth.Security.Tracker.reset
    fastauth.Security.Lockout.reset
reset_password-HasNoCredentials_example =
    reset_password-HasNoCredentials (context_with no_lockout) "alice" "right" "changed" client
      (world with_account) with_account-IsWellFormed refl

abbrev request : Request
request = record {
  kind = "http";
  method = some "POST";
  headers = ("cookie", "session=abc") ∷ ("origin", "api.app.test") ∷ [];
}

admits-IsTrusted_example : IsTrusted tools (csrf.trusted_origins ++ []) "api.app.test"
unfolding header_table origin_of get put admits
admits-IsTrusted_example =
    admits-IsTrusted tools csrf [] "session" request refl refl refl refl refl refl refl
