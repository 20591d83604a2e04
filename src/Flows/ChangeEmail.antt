-- ===== src/Flows/ChangeEmail.antt =====
-- src/fastauth/flows/change_email.py. The field `success` of the responses is always true, and left
-- out.
pub mod Confirmation
use fastauth.Prelude.{
  String, Bool, true, false, not, Option, none, some, [], ◌∷◌, ◌==◌, if◌then◌else◌,
}
use fastauth.Domain.Enums.{ProviderId, VerificationPurpose}
use fastauth.Domain.Errors.{
  Exec, pure, raise, ◌>>=◌, ◌>>◌, raise_if, not_found, duplicate, invalid_credentials,
  token_invalid,
}
use fastauth.Domain.Events.{Client, user_email_change_requested, user_email_changed}
use fastauth.Domain.Models.{User, Account}
use fastauth.Flows.Context.{AuthContext, EmailMessageKind, Variable}
use fastauth.Flows.Hooks.{update_user_with_hooks}
use fastauth.Flows.Mail.{ttl_minutes, issue_challenge, base_of, send_template, consume_token}
use fastauth.Memory.Accounts.{get_account_for_user}
use fastauth.Memory.Users.{get_user_by_email, find_user_by_pending_email_change}
use fastauth.Runtime.World.{World, generate_pair, query, publish}
use fastauth.Security.Tracker
use Prim.Native.String.{◌++◌}

-- Another user has the address.
unfoldable pub is_taken : String → Option User → Bool
is_taken user_id none = false
is_taken user_id (some existing) = not (existing.id == user_id)

module _ (context : AuthContext) where
  unfoldable pub mail_change : User → String → String → Option String → Exec World (Unit {0})
  mail_change user new_email plain app_base_url = do
    confirm_base_url ← base_of context app_base_url context.email_change
    let confirm_url =
        confirm_base_url
        ++ "?token="
        ++ context.tools.quote plain
        ++ "&new_email="
        ++ context.tools.quote new_email
    send_template context "verification"
        (("verify_url", Variable.text confirm_url)
          ∷ ("name", Variable.optional user.name)
          ∷ ("expires_in_minutes", Variable.number (ttl_minutes context.email_change.expires_in))
          ∷ [])
        EmailMessageKind.verification new_email context.email_change.subject

  -- The change is stored as pending, and the new address is asked to confirm it.
  unfoldable pub start_change : User → String → Client → Option String → Exec World (Unit {0})
  start_change user new_email client app_base_url = do
    existing ← query (get_user_by_email context.tools.lower new_email)
    raise_if (is_taken user.id existing) (duplicate "user" "email")
    _ ← update_user_with_hooks context (record user { pending_email_change = some new_email })
    pair ← generate_pair context.external
    issue_challenge context new_email pair.hashed VerificationPurpose.email_change
        context.email_change.expires_in
    mail_change user new_email pair.plain app_base_url
    publish (user_email_change_requested user.id user.email new_email client)

  unfoldable pub check_stored : Option String → String → Exec World (Unit {0})
  check_stored none password = raise (not_found "credential_account")
  check_stored (some stored) password =
      raise_if (not (context.hasher.verify password stored)) invalid_credentials

  unfoldable pub check_credential : Option Account → String → Exec World (Unit {0})
  check_credential none password = raise (not_found "credential_account")
  check_credential (some account) password = check_stored account.password password

  unfoldable pub request_checked :
      User → String → String → Client → Option String → Exec World (Unit {0})
  request_checked user new_email password client app_base_url = do
    account ← query (get_account_for_user user.id ProviderId.credential)
    check_credential account password
    start_change user new_email client app_base_url

  unfoldable pub request_email_change :
      User → String → String → Client → Option String → Exec World (Unit {0})
  request_email_change user new_email password client app_base_url =
      if context.tools.lower new_email == context.tools.lower user.email
      then pure tt
      else request_checked user new_email password client app_base_url

  -- The address went to another user in the meantime.
  unfoldable pub abandon_change : User → Exec World (Unit {0})
  abandon_change candidate = do
    _ ← update_user_with_hooks context (record candidate { pending_email_change = none })
    raise (duplicate "user" "email")

  unfoldable pub apply_change : User → String → Client → Exec World (Unit {0})
  apply_change candidate new_email client = do
    _ ←
        update_user_with_hooks context (record candidate {
          email = new_email;
          pending_email_change = none;
          email_verified = true;
        })
    Tracker.reset context.external context.tracker new_email
    publish (user_email_changed candidate.id new_email candidate.email client)

  unfoldable pub confirm_candidate : String → Client → Option User → Exec World (Unit {0})
  confirm_candidate new_email client none = raise token_invalid
  confirm_candidate new_email client (some candidate) = do
    other ← query (get_user_by_email context.tools.lower new_email)
    if is_taken candidate.id other
        then abandon_change candidate
        else apply_change candidate new_email client

  unfoldable pub confirm_email_change : String → String → Client → Exec World (Unit {0})
  confirm_email_change new_email token client = do
    _ ←
        consume_token context new_email VerificationPurpose.email_change
          (context.external.sha256 token)
    candidate ← query (find_user_by_pending_email_change new_email)
    confirm_candidate new_email client candidate
