-- ===== src/Flows/UserManagement/Deletion.antt =====
-- The checks of a password and the deletion of an account, of src/fastauth/flows/user_management.py.
use fastauth.Prelude.{String, Option, none, some, [], ◌∷◌, if◌then◌else◌}
use fastauth.Domain.Enums.{ProviderId, VerificationPurpose, purpose_value}
use fastauth.Domain.Errors.{Exec, raise, ◌>>=◌, ◌>>◌, not_found, invalid_credentials}
use fastauth.Domain.Events.{Client, otp_generated, user_deleted, user_delete_requested}
use fastauth.Domain.Models.{User, Account}
use fastauth.Flows.Context.{AuthContext, EmailMessageKind, Variable}
use fastauth.Flows.Credentials.{record_failure_and_maybe_emit}
use fastauth.Flows.Mail.{ttl_minutes, issue_challenge, base_of, send_template, consume_token}
use fastauth.Memory.Accounts.{get_account_for_user}
use fastauth.Memory.Users.{delete_user}
use fastauth.Runtime.World.{World, generate_pair, query, modify, publish}
use fastauth.Security.Policy.{run_before, run_after}
use fastauth.Security.Tracker
use Prim.Native.String.{◌++◌}

module _ (context : AuthContext) where
  unfoldable pub refuse_password : String → Client → Exec World (Unit {0})
  refuse_password identifier client =
      record_failure_and_maybe_emit context identifier client >> raise invalid_credentials

  unfoldable pub check_stored : String → Option String → String → Client → Exec World (Unit {0})
  check_stored identifier none password client = raise (not_found "credential_account")
  check_stored identifier (some stored) password client =
      if context.hasher.verify password stored
      then Tracker.reset context.external context.tracker identifier
      else refuse_password identifier client

  unfoldable pub check_credential :
      String → Option Account → String → Client → Exec World (Unit {0})
  check_credential identifier none password client = raise (not_found "credential_account")
  check_credential identifier (some account) password client =
      check_stored identifier account.password password client

  unfoldable pub verify_current_password : User → String → Client → Exec World (Unit {0})
  verify_current_password user password client = do
    Tracker.check_locked context.external context.tracker user.email
    account ← query (get_account_for_user user.id ProviderId.credential)
    check_credential user.email account password client

  -- A hook may abort the deletion, but what it returns does not change whom it deletes.
  unfoldable pub delete_account_state : User → Client → Exec World (Unit {0})
  delete_account_state user client = do
    _ ← run_before context.hooks.before_delete user
    modify (delete_user user.id)
    _ ← run_after context.hooks.after_delete user
    publish (user_deleted user.id client)

  unfoldable pub delete_account_with_password : User → String → Client → Exec World (Unit {0})
  delete_account_with_password user password client =
      verify_current_password user password client >> delete_account_state user client

  unfoldable pub mail_deletion : User → String → Option String → Exec World (Unit {0})
  mail_deletion user plain app_base_url = do
    confirm_base_url ← base_of context app_base_url context.delete_account
    let confirm_url = confirm_base_url ++ "?token=" ++ context.tools.quote plain
    send_template context "delete_account"
        (("confirm_url", Variable.text confirm_url)
          ∷ ("expires_in_minutes", Variable.number (ttl_minutes context.delete_account.expires_in))
          ∷ [])
        EmailMessageKind.account_deletion user.email context.delete_account.subject

  unfoldable pub request_delete_account : User → Client → Option String → Exec World (Unit {0})
  request_delete_account user client app_base_url = do
    pair ← generate_pair context.external
    issue_challenge context user.email pair.hashed VerificationPurpose.account_deletion
        context.delete_account.expires_in
    publish
        (otp_generated user.email (purpose_value VerificationPurpose.account_deletion) pair.plain)
    mail_deletion user pair.plain app_base_url
    publish (user_delete_requested user.id user.email client)

  unfoldable pub confirm_delete_account : User → String → Client → Exec World (Unit {0})
  confirm_delete_account user token client = do
    _ ←
        consume_token context user.email VerificationPurpose.account_deletion
          (context.external.sha256 token)
    delete_account_state user client
