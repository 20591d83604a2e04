-- ===== src/Flows/UserManagement.antt =====
-- src/fastauth/flows/user_management.py. The field `success` of the responses is always true, and left
-- out.
pub mod Deletion
use fastauth.Prelude.{
  ℕ, String, Bool, true, false, not, Option, none, some, List, [], ◌∷◌, ◌++◌, ◌==◌, is_text,
  if◌then◌else◌,
}
use fastauth.Domain.Enums.{ProviderId}
use fastauth.Domain.Errors.{
  Exec, pure, raise, returned, ◌>>=◌, ◌>>◌, raise_if, duplicate, feature_not_enabled,
  password_already_set,
}
use fastauth.Domain.Events.{Client, profile_updated, password_changed}
use fastauth.Domain.Models.{User, Account}
use fastauth.Flows.ChangeEmail.{is_taken}
use fastauth.Flows.Context.{AuthContext, EmailPasswordOptions}
use fastauth.Flows.Creation.{new_account}
use fastauth.Flows.Hooks.{update_user_with_hooks, reset_lockouts}
use fastauth.Flows.PasswordReset.{revoked_events}
use fastauth.Memory.Accounts.{get_account_for_user, create_account, update_account}
use fastauth.Memory.Sessions.{delete_sessions_for_user}
use fastauth.Memory.Users.{get_user_by_username}
use fastauth.Runtime.World.{World, utc_now, query, modify, update, attempt_call, publish}
use fastauth.Security.Passwords.{validate_password, hash_password}
use fastauth.Security.RefreshTokens.{revoke_for_user_except_session}
use fastauth.Security.Tracker

-- A field of `UpdateUserRequest`, which the client sets or leaves out.
pub record UpdateUserRequest : Type 0 where
  pub name : Option (Option String)
  pub image : Option (Option String)
  pub metadata : Option String
  pub username : Option String

-- The user as changed so far, the fields that changed, and the username that is given up.
pub record Edit : Type 0 where
  pub user : User
  pub changed_fields : List String
  pub old_username : Option String

unfoldable pub edit_name : Option (Option String) → Edit → Edit
edit_name none edit = edit
edit_name (some name) edit = record {
  user = record (edit.user) { name = name };
  changed_fields = edit.changed_fields ++ ("name" ∷ []);
  old_username = edit.old_username;
}

unfoldable pub edit_image : Option (Option String) → Edit → Edit
edit_image none edit = edit
edit_image (some image) edit = record {
  user = record (edit.user) { image = image };
  changed_fields = edit.changed_fields ++ ("image" ∷ []);
  old_username = edit.old_username;
}

unfoldable pub edit_metadata : Option String → Edit → Edit
edit_metadata none edit = edit
edit_metadata (some metadata) edit = record {
  user = record (edit.user) { metadata = metadata };
  changed_fields = edit.changed_fields ++ ("metadata" ∷ []);
  old_username = edit.old_username;
}

-- `require_email_password`, and the option that allows the change.
unfoldable pub check_username_change : Option EmailPasswordOptions → Exec World (Unit {0})
check_username_change none = raise (feature_not_enabled "email-password")
check_username_change (some options) =
    raise_if (not options.allow_username_change) (feature_not_enabled "username-change")

unfoldable pub take_username : String → Edit → Exec World Edit
take_username username edit = do
  existing ← query (get_user_by_username username)
  raise_if (is_taken edit.user.id existing) (duplicate "user" "username")
  pure (record {
    user = record (edit.user) { username = some username };
    changed_fields = edit.changed_fields ++ ("username" ∷ []);
    old_username = edit.user.username;
  })

module _ (context : AuthContext) where
  unfoldable pub edit_username : Option String → Edit → Exec World Edit
  edit_username none edit = pure edit
  edit_username (some username) edit = do
    check_username_change context.email_password
    if is_text edit.user.username username then pure edit else take_username username edit

  -- The lockout of the old username follows to the new one.
  unfoldable pub rekey_username : Option String → Option String → Exec World (Unit {0})
  rekey_username none new_username = pure tt
  rekey_username (some old) none = pure tt
  rekey_username (some old) (some new) = Tracker.rekey context.external context.tracker old new

  unfoldable pub save_edit : Edit → Client → Exec World User
  save_edit edit client = do
    updated ← update_user_with_hooks context edit.user
    rekey_username edit.old_username updated.username
    publish (profile_updated edit.user.id edit.changed_fields client)
    pure updated

  unfoldable pub save_changes : Edit → List String → Client → Exec World User
  save_changes edit [] client = pure edit.user
  save_changes edit (field ∷ fields) client = save_edit edit client

  unfoldable pub update_user : User → UpdateUserRequest → Client → Exec World User
  update_user user request client = do
    let start : Edit = record { user = user; changed_fields = []; old_username = none }
    edit ←
        edit_username request.username
          (edit_metadata request.metadata (edit_image request.image (edit_name request.name start)))
    save_changes edit edit.changed_fields client

  unfoldable pub revoke_others : String → String → Bool → Exec World ℕ
  revoke_others user_id current_session_id false = pure 0
  revoke_others user_id current_session_id true = do
    revoked ← update (delete_sessions_for_user user_id (some current_session_id))
    _ ← revoke_for_user_except_session user_id (some current_session_id)
    pure revoked

  unfoldable pub fill_password :
      User → Account → String → String → Bool → Client → Exec World (Unit {0})
  fill_password user account current_session_id new_password revoke_other_sessions client = do
    raw_password ← returned (validate_password context.password new_password)
    password ← hash_password context.external context.hasher raw_password
    now ← utc_now context.external
    _ ← attempt_call (update_account now (record account { password = some password }))
    reset_lockouts context user
    revoked ← revoke_others user.id current_session_id revoke_other_sessions
    publish (password_changed user.id client)
    revoked_events context user.id client revoked

  unfoldable pub add_credential : User → Exec World Account
  add_credential user = do
    account ← new_account context.external user.id ProviderId.credential none
    modify (create_account account)
    pure account

  -- The account to fill: one without a password, or a new one.
  unfoldable pub account_to_fill : User → Option Account → Exec World Account
  account_to_fill user none = add_credential user
  account_to_fill user (some account) = elim account.password [
    | none ↦ pure account
    | some password ↦ raise password_already_set
  ]

  unfoldable pub set_password : User → String → String → Bool → Client → Exec World (Unit {0})
  set_password user current_session_id new_password revoke_other_sessions client = do
    found ← query (get_account_for_user user.id ProviderId.credential)
    account ← account_to_fill user found
    fill_password user account current_session_id new_password revoke_other_sessions client
