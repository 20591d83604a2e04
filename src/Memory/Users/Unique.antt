-- ===== src/Memory/Users/Unique.antt =====
-- Unique usernames under each method of the user table.
use fastauth.Prelude.{
  ℕ, String, ◌≡◌, refl, Bool, true, false, not, ◌&&◌, Option, none, some, inl, inr, arith, ◌==◌,
  eq_iff, is_text, any, Option-cases, Bool-cases,
}
use fastauth.Dict.{Dict, get, find, values, put}
use fastauth.Dict.Laws.{get-put, get-remove}
use fastauth.Dict.Find.{find-none, any-values}
use fastauth.Dict.Tables.{IsTable, keyed}
use fastauth.Domain.Models.{User}
use fastauth.Memory.State.{Memory}
use fastauth.Memory.Invariant.Defs.{user_key}
use fastauth.Memory.Users.{username_taken, create_user, update_user, set_user_active, delete_user}

-- Two keys whose users have one username are one key.
abbrev pub HasUniqueUsernames : Dict User → Type 0
HasUniqueUsernames users =
    (name : String) (j k : String) (u v : User)
    → get users j ≡ some u
    → get users k ≡ some v
    → is_text u.username name ≡ true
    → is_text v.username name ≡ true
    → j ≡ k

-- A username that is not taken is no other row's.
pub username_free :
    (other : User → Bool) (wanted : Option String) (name : String) (d : Dict User) (k : String)
    (v : User)
    → username_taken other wanted d ≡ false
    → is_text wanted name ≡ true
    → get d k ≡ some v
    → other v ≡ true
    → is_text v.username name ≡ false
unfolding username_taken
username_free other none name d k v free e g o = cc
username_free other (some w) name d k v free e g o =
    let p : User → Bool = λ existing. other existing && is_text existing.username w in
    elim (Option-cases (find p d)) [
      | inl absent ↦ ground (arith, find-none p d k absent, eq_iff w name)
      | inr (f, there) ↦ ground (arith, any-values p d, there)
    ]

-- A row that is stored under a key keeps usernames unique, if its name is free among the others.
put-HasUniqueUsernames :
    (d : Dict User) (i : String) (u : User)
    → HasUniqueUsernames d
    → ((name : String) (k : String) (v : User)
        → get d k ≡ some v
        → is_text u.username name ≡ true
        → (i == k) ≡ false
        → is_text v.username name ≡ false)
    → HasUniqueUsernames (put d i u)
put-HasUniqueUsernames d i u h free name j k a b gj gk ea eb = ground (
  arith,
  get-put d i j u,
  get-put d i k u,
  eq_iff i j,
  eq_iff i k,
  h name j k a b,
  free name j a,
  free name k b,
)

pub create_user-HasUniqueUsernames :
    (user : User) (m : Memory)
    → HasUniqueUsernames m.users
    → HasUniqueUsernames (create_user user m).1.users
unfolding create_user
create_user-HasUniqueUsernames user m h =
    let taken = username_taken (λ _. true) user.username m.users in
    elim (Bool-cases (any (λ (e : User). e.email == user.email) (values m.users))) [
      | inl same_email ↦ rw same_email h
      | inr new_email ↦ elim (Bool-cases taken) [
        | inl same_name ↦ rw (new_email, same_name) h
        | inr free ↦
            rw (new_email, free)
              (put-HasUniqueUsernames m.users user.id user h (λ name k v g own _.
                username_free (λ _. true) user.username name m.users k v free own g refl))
      ]
    ]

pub update_user-HasUniqueUsernames :
    (now : ℕ) (user : User) (m : Memory)
    → IsTable user_key m.users
    → HasUniqueUsernames m.users
    → HasUniqueUsernames (update_user now user m).1.users
unfolding update_user
update_user-HasUniqueUsernames now user m t h =
    let others : User → Bool = λ existing. not (existing.id == user.id) in
    elim (Option-cases (get m.users user.id)) [
      | inl e ↦ rw (e, update_user) h
      | inr (stored, e) ↦ elim (Bool-cases (username_taken others user.username m.users)) [
        | inl taken ↦ rw (e, update_user, taken) h
        | inr free ↦
            rw (e, update_user, free)
              (put-HasUniqueUsernames m.users user.id
                (record user { active = stored.active; updated_at = now }) h
                (λ name k v g own other.
                  username_free others user.username name m.users k v free own g
                    (ground (arith, keyed t k v g, eq_iff user.id k, eq_iff k user.id))))
      ]
    ]

pub set_user_active-HasUniqueUsernames :
    (now : ℕ) (user_id : String) (active : Bool) (m : Memory)
    → HasUniqueUsernames m.users
    → HasUniqueUsernames (set_user_active now user_id active m).1.users
unfolding set_user_active
set_user_active-HasUniqueUsernames now user_id active m h =
    elim (Option-cases (get m.users user_id)) [
      | inl e ↦ rw (e, set_user_active) h
      | inr (stored, e) ↦
          rw (e, set_user_active)
            (put-HasUniqueUsernames m.users user_id
              (record stored { active = active; updated_at = now }) h
              (λ name k v g own other. ground (arith, h name user_id k stored v, eq_iff user_id k)))
    ]

pub delete_user-HasUniqueUsernames :
    (user_id : String) (m : Memory)
    → HasUniqueUsernames m.users
    → HasUniqueUsernames (delete_user user_id m).users
unfolding delete_user
delete_user-HasUniqueUsernames user_id m h name j k u v gj gk ej ek =
    ground (arith, get-remove m.users user_id j, get-remove m.users user_id k, h name j k u v)
