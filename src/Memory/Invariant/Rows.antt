-- ===== src/Memory/Invariant/Rows.antt =====
-- Tables under the methods that change a row where it stands, or delete rows by a list of ids.
use fastauth.Prelude.{
  ℕ, String, ◌≡◌, refl, Bool, Option, some, List, [], ◌∷◌, inl, inr, arith, ◌∙◌, Option-cases,
}
use fastauth.Dict.{Dict, get, remove, find}
use fastauth.Dict.Find.{get-find}
use fastauth.Dict.Tables.{
  IsTable, distinct, keyed, put-IsTable, put_at-IsTable, remove-IsTable, remove_all-IsTable,
}
use fastauth.Domain.Enums.{VerificationPurpose}
use fastauth.Domain.Models.{User, Session, Verification, RateLimit, RefreshToken}
use fastauth.Storage.Verification.{apply_verification_attempt, decide_attempt}
use fastauth.Memory.State.{Memory}
use fastauth.Memory.Cleanup.{delete_due}
use fastauth.Memory.Users.{set_user_active, update_user}
use fastauth.Memory.RefreshTokens.{rotate_refresh_token, pop_sessions}
use fastauth.Memory.Accounts.{replace_account_password}
use fastauth.Memory.Verifications.{is_challenge, attempt_verification}
use fastauth.Memory.RateLimits.{hit_bucket, increment_rate_limit, upsert_rate_limit, rekey_buckets}
use fastauth.Memory.Invariant.Defs.{
  user_key, session_key, account_key, verification_key, rate_limit_key, refresh_token_key,
}

pub set_user_active-IsTable :
    (now : ℕ) (user_id : String) (active : Bool) (m : Memory)
    → IsTable user_key m.users
    → IsTable user_key (set_user_active now user_id active m).1.users
unfolding set_user_active
set_user_active-IsTable now user_id active m t = elim (Option-cases (get m.users user_id)) [
  | inl e ↦ ground arith
  | inr (u, e) ↦ ground (
    arith,
    put_at-IsTable user_key m.users user_id (record u { active = active; updated_at = now })
        (keyed t user_id u e) t,
  )
]

pub replace_account_password-IsTable :
    (now : ℕ) (account_id expected new_hash : String) (m : Memory)
    → IsTable account_key m.accounts
    → IsTable account_key (replace_account_password now account_id expected new_hash m).1.accounts
unfolding replace_account_password
replace_account_password-IsTable now account_id expected new_hash m t =
    elim (Option-cases (get m.accounts account_id)) [
      | inl e ↦ ground arith
      | inr (a, e) ↦ ground (
        arith,
        put_at-IsTable account_key m.accounts account_id
            (record a { password = some new_hash; updated_at = now }) (keyed t account_id a e) t,
      )
    ]

pub rotate_refresh_token-IsTable :
    (now : ℕ) (current_token_id : String) (new_token : RefreshToken) (consumed_at : ℕ) (m : Memory)
    → IsTable refresh_token_key m.refresh_tokens
    → IsTable refresh_token_key
        (rotate_refresh_token now current_token_id new_token consumed_at m).1.refresh_tokens
unfolding rotate_refresh_token
rotate_refresh_token-IsTable now id new_token consumed_at m t =
    elim (Option-cases (get m.refresh_tokens id)) [
      | inl e ↦ ground arith
      | inr (c, e) ↦
          let stored =
            put-IsTable refresh_token_key m.refresh_tokens (record new_token { updated_at = now })
              t in
          ground (
            arith,
            put_at-IsTable refresh_token_key _ id
                (record c {
                  consumed_at = some consumed_at;
                  replaced_by = some new_token.id;
                  updated_at = now;
                })
                (keyed t id c e) stored,
          )
    ]

pub pop_sessions-IsTable :
    (ids : List String) (sessions : Dict Session)
    → IsTable session_key sessions
    → IsTable session_key (pop_sessions ids sessions).1
unfolding pop_sessions
pop_sessions-IsTable [] sessions t = t
pop_sessions-IsTable (id ∷ ids) sessions t =
    pop_sessions-IsTable ids (remove sessions id) (remove-IsTable session_key sessions id t)

-- A decision keeps the id and the address of its row.
pub decide_attempt-id :
    (value_hash : String) (now : ℕ) (cap : Option ℕ) (consume : Bool) (row : Verification)
    → (decide_attempt value_hash now cap consume row).1.id ≡ row.id
unfolding decide_attempt
decide_attempt-id value_hash now cap consume row = ground arith

pub attempt_verification-IsTable :
    (identifier : String) (purpose : VerificationPurpose) (value_hash : String) (now : ℕ)
    (cap : Option ℕ) (consume : Bool) (m : Memory)
    → IsTable verification_key m.verifications
    → IsTable verification_key
        (attempt_verification identifier purpose value_hash now cap consume m).1.verifications
unfolding attempt_verification apply_verification_attempt
attempt_verification-IsTable identifier purpose value_hash now cap consume m t =
    let p = is_challenge identifier purpose in
    elim (Option-cases (find p m.verifications)) [
      | inl e ↦ ground arith
      | inr (f, e) ↦
          let row_id = keyed t f.0 f.1 (get-find p m.verifications f.0 f.1 (distinct t) e) in
          ground (
            arith,
            put_at-IsTable verification_key m.verifications f.0 f.1 row_id t,
            put_at-IsTable verification_key m.verifications f.0
                (decide_attempt value_hash now cap consume f.1).1
                (decide_attempt-id value_hash now cap consume f.1 ∙ row_id) t,
          )
    ]

pub delete_due-IsTable :
    {V : Type 0} (id_of : V → String) (stamp : V → ℕ) (is_due : V → Bool) (limit : ℕ) (d : Dict V)
    → IsTable id_of d
    → IsTable id_of (delete_due id_of stamp is_due limit d).1
unfolding delete_due
delete_due-IsTable id_of stamp is_due limit d t = remove_all-IsTable id_of _ d t

pub increment_rate_limit-IsTable :
    (new_id key : String) (window_ms now_ms : ℕ) (m : Memory)
    → IsTable rate_limit_key m.rate_limits
    → IsTable rate_limit_key (increment_rate_limit new_id key window_ms now_ms m).1.rate_limits
unfolding increment_rate_limit
increment_rate_limit-IsTable new_id key window_ms now_ms m t =
    put_at-IsTable rate_limit_key m.rate_limits key
      (hit_bucket new_id key window_ms now_ms (get m.rate_limits key)) (ground arith) t

pub upsert_rate_limit-IsTable :
    (rate_limit : RateLimit) (m : Memory)
    → IsTable rate_limit_key m.rate_limits
    → IsTable rate_limit_key (upsert_rate_limit rate_limit m).1.rate_limits
unfolding upsert_rate_limit
upsert_rate_limit-IsTable r m t = elim (Option-cases (get m.rate_limits r.key)) [
  | inl e ↦ ground (arith, put-IsTable rate_limit_key m.rate_limits r t)
  | inr (b, e) ↦ ground (
    arith,
    put_at-IsTable rate_limit_key m.rate_limits r.key
        (record b { count = r.count; last_request_ms = r.last_request_ms }) (keyed t r.key b e) t,
  )
]

pub rekey_buckets-IsTable :
    (new_id old_key new_key : String) (active : List RateLimit) (d : Dict RateLimit)
    → IsTable rate_limit_key d
    → IsTable rate_limit_key (rekey_buckets new_id old_key new_key active d)
unfolding rekey_buckets
rekey_buckets-IsTable new_id old_key new_key [] d t =
    remove-IsTable rate_limit_key _ old_key (remove-IsTable rate_limit_key d new_key t)
rekey_buckets-IsTable new_id old_key new_key (b ∷ rest) d t =
    remove-IsTable rate_limit_key _ old_key (put_at-IsTable rate_limit_key d new_key _ refl t)

pub update_user-IsTable :
    (now : ℕ) (user : User) (m : Memory)
    → IsTable user_key m.users
    → IsTable user_key (update_user now user m).1.users
unfolding update_user
update_user-IsTable now user m t = elim (Option-cases (get m.users user.id)) [
  | inl e ↦ ground arith
  | inr (u, e) ↦
      ground (
        arith,
        put-IsTable user_key m.users (record user { active = u.active; updated_at = now }) t,
      )
]
