-- ===== src/Flows/Creation.antt =====
-- src/fastauth/flows/creation.py. The two calls of the adapter that may fail and the deletion that
-- compensates are arguments; `persist_user_account` takes those of the in-memory adapter. The waiting
-- for a cancelled task is asyncio's.
pub mod Compensation
use fastauth.Prelude.{String, Option, none}
use fastauth.Domain.Enums.{ProviderId}
use fastauth.Domain.Errors.{
  FastAuthError, duplicate, Result, ok, err, Exec, pure, raise, ◌>>=◌, ◌>>◌,
}
use fastauth.Domain.Models.{User, Account}
use fastauth.Memory.Accounts
use fastauth.Memory.Users
use fastauth.Runtime.World.{External, World, utc_now, new_id, modify, attempt_call}

-- `Account(user_id=..., provider_id=..., account_id=..., password=...)`
unfoldable pub new_account : External → String → ProviderId → Option String → Exec World Account
new_account external user_id provider_id password = do
  id ← new_id external
  created_at ← utc_now external
  updated_at ← utc_now external
  let account : Account = record {
    id = id;
    user_id = user_id;
    provider_id = provider_id;
    account_id = user_id;
    password = password;
    access_token = none;
    refresh_token = none;
    access_token_expires_at = none;
    refresh_token_expires_at = none;
    scope = none;
    id_token = none;
    created_at = created_at;
    updated_at = updated_at;
  }
  pure account

module _ (create_user : User → Exec World User) (create_account : Account → Exec World (Unit {0}))
    (delete_user : String → Exec World (Unit {0})) where
  -- `except DuplicateError: raise`, and `except BaseException` with the compensation.
  unfoldable pub refuse_user : String → FastAuthError → Exec World User
  refuse_user user_id (duplicate resource field) = raise (duplicate resource field)
  refuse_user user_id e = delete_user user_id >> raise e

  unfoldable pub finish_account : User → Result (Unit {0}) → Exec World User
  finish_account created (ok _) = pure created
  finish_account created (err e) = delete_user created.id >> raise e

  unfoldable pub add_account :
      External → ProviderId → Option String → User → Result User → Exec World User
  add_account external provider_id password_hash user (err e) = refuse_user user.id e
  add_account external provider_id password_hash user (ok created) = do
    account ← new_account external created.id provider_id password_hash
    λ w. let (r, w') = create_account account w in finish_account created r w'

  unfoldable pub commit : External → User → ProviderId → Option String → Exec World User
  commit external user provider_id password_hash w =
      let (r, w') = create_user user w in add_account external provider_id password_hash user r w'

abbrev pub create_memory_user : User → Exec World User
create_memory_user user = attempt_call (Users.create_user user)

abbrev pub create_memory_account : Account → Exec World (Unit {0})
create_memory_account account = modify (Accounts.create_account account)

abbrev pub delete_memory_user : String → Exec World (Unit {0})
delete_memory_user user_id = modify (Users.delete_user user_id)

unfoldable pub persist_user_account : External → User → ProviderId → Option String → Exec World User
persist_user_account external user provider_id password_hash =
    commit create_memory_user create_memory_account delete_memory_user external user provider_id
      password_hash
