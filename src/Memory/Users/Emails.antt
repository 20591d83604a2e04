-- ===== src/Memory/Users/Emails.antt =====
-- The emails of the stored users when a user is updated.
use fastauth.Prelude.{
  ℕ, String, ◌≡◌, ◌↔◌, refl, sym, subst, Bool, true, false, not, Option, none, some, inl, inr,
  arith, ◌==◌, eq_iff, eq_refl, Option-cases, is_text, ◌&&◌, Bool-cases,
}
use fastauth.Dict.{Dict, get, put, find}
use fastauth.Dict.Find.{find-passes, get-find, any-values}
use fastauth.Dict.Tables.{IsTable, distinct, keyed}
use fastauth.Memory.Invariant.Defs.{IsWellFormed, user_key}
use fastauth.Dict.Laws.{get-put}
use fastauth.Domain.Errors.{ok}
use fastauth.Domain.Models.{User}
use fastauth.Memory.State.{Memory}
use fastauth.Memory.Users.{username_taken, update_user}

-- Two keys whose users have one email are one key.
abbrev pub HasUniqueEmails : Dict User → Type 0
HasUniqueEmails users =
    (j k : String) (u v : User)
    → get users j ≡ some u
    → get users k ≡ some v
    → u.email ≡ v.email
    → j ≡ k

-- No user but the one under the key has the email.
abbrev pub IsFreeEmail : String → String → Dict User → Type 0
IsFreeEmail key email users =
    (j : String) (other : User) → get users j ≡ some other → other.email ≡ email → j ≡ key

-- No user but the one under the key has the username, where there is one.
abbrev pub IsFreeUsername : String → Option String → Dict User → Type 0
IsFreeUsername key username users =
    (name j : String) (other : User)
    → username ≡ some name
    → get users j ≡ some other
    → other.username ≡ some name
    → j ≡ key

is_text-eq : (o : Option String) (t : String) → is_text o t ≡ true → o ≡ some t
is_text-eq none t h = ground arith
is_text-eq (some s) t h = ground (arith, eq_iff s t)

username_taken-free :
    (key : String) (username : Option String) (users : Dict User)
    → IsTable user_key users
    → IsFreeUsername key username users
    → username_taken (λ existing. not (existing.id == key)) username users ≡ false
unfolding username_taken
username_taken-free key none users t free = refl
username_taken-free key (some name) users t free =
    let p : User → Bool = λ existing. not (existing.id == key) && is_text existing.username name in
    elim (Option-cases (find p users)) [
      | inl e ↦ ground (arith, any-values p users, e)
      | inr ((j, other), e) ↦
          let there = get-find p users j other (distinct t) e in
          let passing = find-passes p users j other e in
          let own = free name j other refl there (is_text-eq other.username name (ground arith)) in
          absurd (ground (arith, keyed t j other there, eq_iff other.id key))
    ]

-- What an update that returns leaves.
update_user-returned :
    (now : ℕ) (user r : User) (m : Memory)
    → (update_user now user m).0 ≡ ok r
    → ((update_user now user m).1.users ≡ put m.users user.id r) × (r.email ≡ user.email)
unfolding update_user
update_user-returned now user r m returned = ground arith

put-HasUniqueEmails :
    (d : Dict User) (i : String) (r : User)
    → HasUniqueEmails d
    → IsFreeEmail i r.email d
    → HasUniqueEmails (put d i r)
put-HasUniqueEmails d i r h free j k u v at_j at_k same =
    ground (
      arith,
      get-put d i j r,
      get-put d i k r,
      eq_iff i j,
      eq_iff i k,
      h j k u v,
      free j u,
      free k v,
    )

put-IsFreeEmail :
    (d : Dict User) (i : String) (r : User) → HasUniqueEmails (put d i r) → IsFreeEmail i r.email d
put-IsFreeEmail d i r h j other at_j same = elim (Bool-cases (i == j)) [
  | inl own ↦ ground (arith, eq_iff i j)
  | inr other_key ↦
      h j i other r (ground (arith, get-put d i j r)) (ground (arith, get-put d i i r, eq_refl i))
        same
]

-- An update of a stored user, under a username that is free, returns.
update_user-returns :
    (now : ℕ) (user stored : User) (m : Memory)
    → get m.users user.id ≡ some stored
    → username_taken (λ existing. not (existing.id == user.id)) user.username m.users ≡ false
    → (r : User) × ((update_user now user m).0 ≡ ok r)
unfolding update_user
update_user-returns now user stored m there free =
    (record user { active = stored.active; updated_at = now }, rw (there, update_user, free) refl)

-- In a well-formed state, let the emails of the stored users be unique. Let a user have a row, and no
-- other stored user the username that is to be written, if there is one. Then `update_user` returns,
-- whatever the email is, and afterwards the emails are unique exactly if no other stored user had the
-- email that was written.
pub update_user-HasUniqueEmails :
    (now : ℕ) (user stored : User) (m : Memory)
    → IsWellFormed m
    → HasUniqueEmails m.users
    → get m.users user.id ≡ some stored
    → IsFreeUsername user.id user.username m.users
    → let (result, m') = update_user now user m in
      ((r : User) × (result ≡ ok r))
      × (HasUniqueEmails m'.users ↔ IsFreeEmail user.id user.email m.users)
update_user-HasUniqueEmails now user stored m wf unique there free_name =
    let (r, returned) =
      update_user-returns now user stored m there
        (username_taken-free user.id user.username m.users wf.users free_name) in
    let (rows, email) = update_user-returned now user r m returned in
    (
      (r, returned),
      (
        λ h.
            subst (λ e. IsFreeEmail user.id e m.users) email
              (put-IsFreeEmail m.users user.id r (subst HasUniqueEmails rows h)),
        λ free. subst HasUniqueEmails (sym rows) (
            put-HasUniqueEmails m.users user.id r unique
              (subst (λ e. IsFreeEmail user.id e m.users) (sym email) free)),
      ),
    )
