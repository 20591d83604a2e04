-- ===== src/Memory/Users.antt =====
-- The user methods of `InMemoryAdapter`. `lower` is `str.lower`; `now` is the clock that the method
-- reads.
pub mod Unique
pub mod Reachable
pub mod Deletion
pub mod Emails
use fastauth.Prelude.{
  ℕ, String, Bool, true, false, not, ◌&&◌, Option, none, some, List, [], ◌∷◌, ◌==◌, is_text, any,
  contains, if◌then◌else◌,
}
use fastauth.Dict.{Dict, get, put, remove, remove_all, keys_where, find, values, row_of}
use fastauth.Domain.Models.{User, Session, Account, Verification, ApiKey, RefreshToken}
use fastauth.Domain.Errors.{Exec, ok, err, not_found, duplicate}
use fastauth.Memory.State.{Memory}

-- `user.username is not None and any(existing.username == user.username for ...)`, over the rows
-- that `other` admits.
unfoldable pub username_taken : (User → Bool) → Option String → Dict User → Bool
username_taken other none users = false
username_taken other (some name) users =
    any (λ existing. other existing && is_text existing.username name) (values users)

unfoldable pub create_user : User → Exec Memory User
unfolding username_taken
create_user user m =
    if any (λ existing. existing.email == user.email) (values m.users)
    then (err (duplicate "user" "email"), m)
    else if username_taken (λ _. true) user.username m.users
    then (err (duplicate "user" "username"), m)
    else (ok user, record m { users = put m.users user.id user })

unfoldable pub get_user_by_id : String → Memory → Option User
get_user_by_id user_id m = get m.users user_id

unfoldable pub get_user_by_email : (String → String) → String → Memory → Option User
get_user_by_email lower email m = row_of (find (λ user. lower user.email == lower email) m.users)

unfoldable pub get_user_by_username : String → Memory → Option User
get_user_by_username username m = row_of (find (λ user. is_text user.username username) m.users)

unfoldable pub find_user_by_pending_email_change : String → Memory → Option User
find_user_by_pending_email_change new_email m =
    row_of (find (λ user. is_text user.pending_email_change new_email) m.users)

-- `active` is taken from the stored row, so a profile update never changes it.
unfoldable pub update_user : ℕ → User → Exec Memory User
unfolding username_taken
update_user now user m = elim (get m.users user.id) [
  | none ↦ (err (not_found "user"), m)
  | some stored ↦
      if username_taken (λ existing. not (existing.id == user.id)) user.username m.users
      then (err (duplicate "user" "username"), m)
      else let updated = record user { active = stored.active; updated_at = now } in
        (ok updated, record m { users = put m.users user.id updated })
]

unfoldable pub set_user_active : ℕ → String → Bool → Exec Memory User
set_user_active now user_id active m = elim (get m.users user_id) [
  | none ↦ (err (not_found "user"), m)
  | some user ↦
      let updated = record user { active = active; updated_at = now } in
      (ok updated, record m { users = put m.users user_id updated })
]

-- The addresses under which challenges of a deleted user may stand.
unfoldable pub identifiers_of : Option User → List String
identifiers_of none = []
identifiers_of (some user) =
    user.email ∷ elim user.pending_email_change [ none ↦ [] | some address ↦ address ∷ [] ]

unfoldable pub delete_user : String → Memory → Memory
unfolding identifiers_of
delete_user user_id m =
    let identifiers = identifiers_of (get m.users user_id) in
    record m {
      users = remove m.users user_id;
      accounts =
          remove_all (keys_where (λ (row : Account). row.user_id == user_id) m.accounts) m.accounts;
      sessions =
          remove_all (keys_where (λ (row : Session). row.user_id == user_id) m.sessions) m.sessions;
      refresh_tokens =
          remove_all (keys_where (λ (row : RefreshToken). row.user_id == user_id) m.refresh_tokens)
            m.refresh_tokens;
      api_keys =
          remove_all (keys_where (λ (row : ApiKey). row.user_id == user_id) m.api_keys) m.api_keys;
      verifications =
          remove_all
            (keys_where (λ (row : Verification). contains row.identifier identifiers)
              m.verifications)
            m.verifications;
    }
