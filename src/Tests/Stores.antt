-- ===== src/Tests/Stores.antt =====
-- The in-memory adapter on concrete tables.
use fastauth.Prelude.{
  ◌<◌, ◌≤◌, ℕ, ◌≤◌, ◌<◌, String, ◌≡◌, ◌≢◌, ◌↔◌, refl, true, false, not, ◌&&◌, none, some, List, [],
  ◌∷◌, arith, ◌==◌, eq_iff, is_text, leb,
}
use fastauth.Dict.{get, remove_all, keys_where, values}
use fastauth.Domain.Models.{User, Session, Account, RefreshToken, ApiKey, Verification}
use fastauth.Domain.Errors.{ok}
use fastauth.Memory.{Memory, empty}
use fastauth.Memory.Ops.{Op, run}
use fastauth.Memory.Invariant.Defs.{IsWellFormed, empty-IsWellFormed}
use fastauth.Memory.Users.{update_user, delete_user}
use fastauth.Memory.Users.Unique.{HasUniqueUsernames}
use fastauth.Memory.Users.Reachable.{run-HasUniqueUsernames}
use fastauth.Memory.Users.Emails.{
  HasUniqueEmails, IsFreeEmail, IsFreeUsername, update_user-HasUniqueEmails,
}
use fastauth.Memory.Users.Deletion.{is_addressed, delete_user_cascade}
use fastauth.Memory.Sessions.{delete_sessions_for_user, delete_expired_sessions}
use fastauth.Memory.Sessions.ForUser.{delete_sessions_for_user_exact}
use fastauth.Memory.RefreshTokens.{
  rotate_refresh_token, delete_refresh_token_family, delete_refresh_tokens_for_user,
  delete_expired_refresh_tokens,
}
use fastauth.Memory.RefreshTokens.Rotation.{rotate_refresh_token_once}
use fastauth.Memory.RefreshTokens.Families.{delete_refresh_token_family_exact}
use fastauth.Memory.RefreshTokens.UserFamilies.{
  delete_refresh_tokens_for_user_left, delete_refresh_tokens_for_user_all,
}
use fastauth.Runtime.Maintenance.{MaintenanceOptions, drain, returning}
use fastauth.Runtime.Maintenance.Expired.{
  drain-delete_expired_sessions, drain-delete_expired_refresh_tokens,
}
use fastauth.Tests.Samples.{alice, bob, laptop, grant, with_token, with_token-IsWellFormed}

abbrev pub sample : Memory
sample = with_token grant

pub sample-IsWellFormed : IsWellFormed sample
sample-IsWellFormed = with_token-IsWellFormed grant

abbrev calls : List Op
calls =
    Op.create_user alice
    ∷ Op.create_user (record bob { username = some "alice" })
    ∷ Op.create_user bob
    ∷ []

no_users : HasUniqueUsernames []
unfolding get
no_users name j k u v at_j at_k own_u own_v = absurd (ground arith)

run-HasUniqueUsernames_example :
    IsWellFormed (run calls empty) × HasUniqueUsernames (run calls empty).users
run-HasUniqueUsernames_example = run-HasUniqueUsernames calls empty empty-IsWellFormed no_users

abbrev renamed : User
renamed = record bob { email = "alice" }

sample-HasUniqueEmails : HasUniqueEmails sample.users
unfolding get
sample-HasUniqueEmails j k u v at_j at_k same = ground (
  arith,
  eq_iff "alice" j,
  eq_iff "alice" k,
  eq_iff "bob" j,
  eq_iff "bob" k,
  eq_iff "alice" "bob",
)

bob-IsFreeUsername : IsFreeUsername "bob" (some "bob") sample.users
unfolding get
bob-IsFreeUsername name j other own at_j same =
    ground (arith, eq_iff "alice" j, eq_iff "bob" j, eq_iff "alice" "bob")

update_user-HasUniqueEmails_example :
    let (result, m') = update_user 7 renamed sample in
    ((r : User) × (result ≡ ok r))
    × (HasUniqueEmails m'.users ↔ IsFreeEmail "bob" "alice" sample.users)
unfolding get
update_user-HasUniqueEmails_example =
    update_user-HasUniqueEmails 7 renamed bob sample sample-IsWellFormed sample-HasUniqueEmails refl
      bob-IsFreeUsername

delete_user_cascade_example :
    let m' = delete_user "alice" sample in
    ((k : String) (u : User)
      → (get m'.users k ≡ some u) ↔ ((get sample.users k ≡ some u) × (("alice" == k) ≡ false)))
    × ((k : String) (s : Session)
        → (get m'.sessions k ≡ some s)
          ↔ ((get sample.sessions k ≡ some s) × ((s.user_id == "alice") ≡ false)))
    × ((k : String) (a : Account)
        → (get m'.accounts k ≡ some a)
          ↔ ((get sample.accounts k ≡ some a) × ((a.user_id == "alice") ≡ false)))
    × ((k : String) (t : RefreshToken)
        → (get m'.refresh_tokens k ≡ some t)
          ↔ ((get sample.refresh_tokens k ≡ some t) × ((t.user_id == "alice") ≡ false)))
    × ((k : String) (a : ApiKey)
        → (get m'.api_keys k ≡ some a)
          ↔ ((get sample.api_keys k ≡ some a) × ((a.user_id == "alice") ≡ false)))
    × ((k : String) (v : Verification)
        → (get m'.verifications k ≡ some v) ↔ (
            (get sample.verifications k ≡ some v)
            × (is_addressed (get sample.users "alice") v.identifier ≡ false)))
delete_user_cascade_example = delete_user_cascade "alice" sample sample-IsWellFormed

delete_sessions_for_user_exact_example :
    (get (delete_sessions_for_user "alice" (some "laptop") sample).1.sessions "laptop"
      ≡ some laptop)
    ↔ ((get sample.sessions "laptop" ≡ some laptop)
        × ((laptop.user_id == "alice" && not (is_text (some "laptop") "laptop")) ≡ false))
delete_sessions_for_user_exact_example =
    delete_sessions_for_user_exact "alice" (some "laptop") sample sample-IsWellFormed "laptop"
      laptop

abbrev successor : RefreshToken
successor = record grant { id = "next"; token_hash = "next token" }

abbrev rival : RefreshToken
rival = record grant { id = "rival"; token_hash = "rival token" }

rotate_refresh_token_once_example :
    let m' = (rotate_refresh_token 60 "grant" successor 59 sample).1 in
    rotate_refresh_token 70 "grant" rival 69 m' ≡ (none, m')
unfolding rotate_refresh_token get
rotate_refresh_token_once_example =
    rotate_refresh_token_once 60 70 "grant" successor rival 59 69 sample
      (λ e. ground (arith, eq_iff "next" "grant")) refl

delete_refresh_token_family_exact_example :
    let m' = (delete_refresh_token_family "grant" sample).1 in
    ((k : String) (t : RefreshToken)
      → (get m'.refresh_tokens k ≡ some t)
        ↔ ((get sample.refresh_tokens k ≡ some t) × ((t.family_id == "grant") ≡ false)))
    × ((k : String) (t : RefreshToken)
        → get sample.refresh_tokens k ≡ some t
        → (t.family_id == "grant") ≡ true
        → get m'.sessions t.session_id ≡ none)
    × ((id : String)
        → ((k : String) (t : RefreshToken)
            → get sample.refresh_tokens k ≡ some t
            → (t.family_id == "grant") ≡ true
            → t.session_id ≢ id)
        → get m'.sessions id ≡ get sample.sessions id)
delete_refresh_token_family_exact_example =
    delete_refresh_token_family_exact "grant" sample sample-IsWellFormed

delete_refresh_tokens_for_user_left_example :
    (j : String) × (s : RefreshToken) × (get sample.refresh_tokens j ≡ some s)
    × ((s.user_id == "alice" && is_text (some "laptop") s.session_id) ≡ true)
    × (s.family_id ≡ "grant")
unfolding delete_refresh_tokens_for_user get remove_all keys_where values
delete_refresh_tokens_for_user_left_example =
    delete_refresh_tokens_for_user_left "alice" sample sample-IsWellFormed (some "laptop") "grant"
      grant refl refl

delete_refresh_tokens_for_user_all_example :
    let m' = (delete_refresh_tokens_for_user "alice" none sample).1 in
    (get m'.refresh_tokens "grant" ≡ none) × (get m'.sessions "laptop" ≡ none)
unfolding get
delete_refresh_tokens_for_user_all_example =
    delete_refresh_tokens_for_user_all "alice" sample sample-IsWellFormed "grant" grant refl refl

abbrev options : MaintenanceOptions
options = record {
  batch_size = 2;
  max_batches = 3;
  audit_log_retention = none;
  continue_on_error = false;
}

drain-delete_expired_sessions_example :
    let (r, m') = drain options (returning delete_expired_sessions) 2000 sample in
    (n : ℕ) × (r ≡ ok n)
    × (n ≤ 6)
    × IsWellFormed m'
    × ((k : String) (s : Session)
        → get sample.sessions k ≡ some s
        → leb s.expires_at 2000 ≡ false
        → get m'.sessions k ≡ some s)
    × ((k : String) (s : Session) → get m'.sessions k ≡ some s → get sample.sessions k ≡ some s)
    × (n < 6
        → (k : String) (s : Session) → get m'.sessions k ≡ some s
        → leb s.expires_at 2000 ≡ false)
drain-delete_expired_sessions_example =
    drain-delete_expired_sessions options 2000 sample sample-IsWellFormed

drain-delete_expired_refresh_tokens_example :
    let (r, m') = drain options (returning delete_expired_refresh_tokens) 2000 sample in
    (n : ℕ) × (r ≡ ok n)
    × (n ≤ 6)
    × IsWellFormed m'
    × ((k : String) (s : RefreshToken)
        → get sample.refresh_tokens k ≡ some s
        → leb s.expires_at 2000 ≡ false
        → get m'.refresh_tokens k ≡ some s)
    × ((k : String) (s : RefreshToken)
        → get m'.refresh_tokens k ≡ some s
        → get sample.refresh_tokens k ≡ some s)
    × (n < 6
        → (k : String) (s : RefreshToken) → get m'.refresh_tokens k ≡ some s
        → leb s.expires_at 2000 ≡ false)
drain-delete_expired_refresh_tokens_example =
    drain-delete_expired_refresh_tokens options 2000 sample sample-IsWellFormed
