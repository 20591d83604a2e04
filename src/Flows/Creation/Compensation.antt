-- ===== src/Flows/Creation/Compensation.antt =====
-- `persist_user_account` when the account cannot be written.
use fastauth.Prelude.{suc, String, ◌≡◌, refl, Option, none, ◌==◌, arith, if◌then◌else◌}
use fastauth.Dict.{get, put}
use fastauth.Dict.Laws.{get-put, get-remove}
use fastauth.Domain.Enums.{ProviderId}
use fastauth.Domain.Errors.{FastAuthError, ok, err, Exec}
use fastauth.Domain.Models.{User, Account}
use fastauth.Flows.Creation.{
  new_account, finish_account, add_account, commit, create_memory_user, delete_memory_user,
}
use fastauth.Memory.{Memory}
use fastauth.Memory.Users.{create_user, delete_user}
use fastauth.Runtime.World.{External, World, utc_now, new_id, modify, attempt_call}

-- A user that is created stands under its id, beside the others.
create_user-ok :
    (user : User) (m : Memory)
    → (create_user user m).0 ≡ ok user
    → create_user user m ≡ (ok user, record m { users = put m.users user.id user })
unfolding create_user
create_user-ok user m e = ground arith

-- Over the in-memory adapter, with a call that writes the account and raises, having changed nothing:
-- let the new user be accepted. Then the creation raises that error, no user stands under the new id,
-- and every other user is as it was.
pub commit-compensates :
    (external : External) (create_account : Account → Exec World (Unit {0})) (user : User)
    (provider_id : ProviderId) (password_hash : Option String) (e : FastAuthError) (w : World)
    → ((account : Account) (v : World) → create_account account v ≡ (err e, v))
    → (create_user user w.memory).0 ≡ ok user
    → let (r, w') =
        commit create_memory_user create_account delete_memory_user external user provider_id
          password_hash w in
      (r ≡ err e)
      × ((k : String)
          → get w'.memory.users k ≡ (if user.id == k then none else get w.memory.users k))
unfolding commit add_account finish_account attempt_call new_account utc_now new_id modify
    delete_user
commit-compensates external create_account user provider_id password_hash e w broken accepted =
    let users = put w.memory.users user.id user in
    let made : Account = record {
      id = external.fresh_id w.ids;
      user_id = user.id;
      provider_id = provider_id;
      account_id = user.id;
      password = password_hash;
      access_token = none;
      refresh_token = none;
      access_token_expires_at = none;
      refresh_token_expires_at = none;
      scope = none;
      id_token = none;
      created_at = external.clock w.ticks;
      updated_at = external.clock (suc w.ticks);
    } in
    let at = record w {
      memory = record w.memory { users = users };
      ids = suc w.ids;
      ticks = suc (suc w.ticks);
    } in
    rw (create_user-ok user w.memory accepted, broken made at)
      (refl, λ k. ground (arith, get-remove users user.id k, get-put w.memory.users user.id k user))
