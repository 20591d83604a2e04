-- ===== src/Security/Tracker/Calls.antt =====
-- What a call of the lockout tracker returns and what it leaves alone.
use fastauth.Prelude.{
  ap, ◌∙◌, subst, Option-cases, ℕ, suc, Option, none, some, ◌*◌, ◌/◌, String, ◌≡◌, refl, true,
  false, inl, inr, Bool-cases, arith,
}
use fastauth.Domain.Errors.{ok, err, account_locked}
use fastauth.Runtime.World.{External, World, utc_now}
use fastauth.Domain.Models.{RateLimit}
use fastauth.Security.RateLimit.{retry_after}
use fastauth.Security.Buckets.{bucket_of}
use fastauth.Security.Lockout.{LockoutOptions, lockout_key, locked_row}
use fastauth.Security.Lockout
use fastauth.Security.Lockout.Locked.{is_locked}
use fastauth.Security.RateLimit.Shared.{RateLimitStorageKind, rate_storage}
use fastauth.Security.Tracker.{TrackerOptions, now_ms, check_found, check_row, check_locked, reset}
use fastauth.Memory.{Memory}
use fastauth.Memory.RateLimits.{delete_rate_limit}

get-ticks :
    (kind : RateLimitStorageKind) (key : String) (w : World) (n : ℕ)
    → (rate_storage kind).get key (record w { ticks = n }) ≡ (rate_storage kind).get key w
get-ticks RateLimitStorageKind.memory key w n = refl
get-ticks RateLimitStorageKind.database key w n = refl

locked_row-locked :
    (config : LockoutOptions) (now : ℕ) (row : Option RateLimit)
    → is_locked config now (bucket_of row) ≡ true
    → (seconds : ℕ) × (locked_row config now row ≡ err (account_locked seconds))
unfolding locked_row
locked_row-locked config now none locked = ground arith
locked_row-locked config now (some row) locked =
    (retry_after row.last_request_ms (config.window_seconds * 1000) now, ground arith)

module _ (external : External) (options : TrackerOptions) (identifier : String) (w : World) where
  pub check_locked-off :
      options.lockout.enabled ≡ false → check_locked external options identifier w ≡ (ok tt, w)
  unfolding check_locked
  check_locked-off off = simp off refl

  check_locked-none :
      options.lockout.enabled ≡ true
      → (rate_storage options.storage).get (lockout_key identifier) w ≡ none
      → check_locked external options identifier w ≡ (ok tt, w)
  unfolding check_locked check_row check_found
  check_locked-none on absent = simp (on, absent) refl

  check_locked-some :
      (row : RateLimit)
      → options.lockout.enabled ≡ true
      → (rate_storage options.storage).get (lockout_key identifier) w ≡ some row
      → check_locked external options identifier w ≡ (
        locked_row options.lockout (external.clock w.ticks / 1000) (some row),
        record w { ticks = suc w.ticks },
      )
  unfolding check_locked check_row check_found now_ms utc_now Lockout.check_locked
  check_locked-some row on there =
      let again = get-ticks options.storage (lockout_key identifier) w (suc w.ticks) ∙ there in
      simp (on, there, again) refl

  pub check_locked-memory : (check_locked external options identifier w).1.memory ≡ w.memory
  check_locked-memory = elim (Bool-cases options.lockout.enabled) [
    | inr off ↦ rw (check_locked-off off) refl
    | inl on ↦ elim (Option-cases ((rate_storage options.storage).get (lockout_key identifier) w)) [
      | inl absent ↦ rw (check_locked-none on absent) refl
      | inr (row, there) ↦ rw (check_locked-some row on there) refl
    ]
  ]

  pub check_locked-locked :
      options.lockout.enabled ≡ true
      → is_locked options.lockout
          (external.clock w.ticks / 1000)
          (bucket_of ((rate_storage options.storage).get (lockout_key identifier) w))
        ≡ true
      → (seconds : ℕ) × (check_locked external options identifier w
          ≡ (err (account_locked seconds), record w { ticks = suc w.ticks }))
  check_locked-locked on locked =
      let now = external.clock w.ticks / 1000 in
      let found = (rate_storage options.storage).get (lockout_key identifier) w in
      elim (Option-cases found) [
        | inl absent ↦ absurd (ground (arith, absent, locked))
        | inr (row, there) ↦
            let (seconds, e) =
              locked_row-locked options.lockout now (some row)
                (subst (λ o. is_locked options.lockout now (bucket_of o) ≡ true) there locked) in
            (
              seconds,
              check_locked-some row on there ∙ ap (λ r. (r, record w { ticks = suc w.ticks })) e,
            )
      ]

-- A reset touches nothing of the tables but the counts.
module _ {A : Type 0} (part : Memory → A)
    (law : (key : String) (m : Memory) → part (delete_rate_limit key m) ≡ part m)
    (external : External) (options : TrackerOptions) (identifier : String) (w : World) where
  delete-part :
      (kind : RateLimitStorageKind) (key : String)
      → part ((rate_storage kind).delete key w).memory ≡ part w.memory
  delete-part RateLimitStorageKind.memory key = refl
  delete-part RateLimitStorageKind.database key = law key w.memory

  pub reset-part : part (reset external options identifier w).1.memory ≡ part w.memory
  unfolding reset Lockout.reset
  reset-part = elim (Bool-cases options.lockout.enabled) [
    | inl on ↦ simp on (delete-part options.storage (lockout_key identifier))
    | inr off ↦ simp off refl
  ]

delete_rate_limit-users : (key : String) (m : Memory) → (delete_rate_limit key m).users ≡ m.users
unfolding delete_rate_limit
delete_rate_limit-users key m = refl

pub reset-users :
    (external : External) (options : TrackerOptions) (identifier : String) (w : World)
    → (reset external options identifier w).1.memory.users ≡ w.memory.users
reset-users external options identifier w =
    reset-part (λ m. m.users) delete_rate_limit-users external options identifier w
