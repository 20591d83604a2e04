-- ===== src/Security/Lockout/Rekey.antt =====
-- `rekey` of src/fastauth/security/lockout.py, when a user changes the identifier.
use fastauth.Prelude.{
  ℕ, ◌*◌, String, ◌≡◌, ◌≢◌, Bool, true, false, ◌||◌, arith, ◌==◌, eq_iff, if◌then◌else◌,
}
use fastauth.Security.Buckets.{RateLimitStorage, IsBucketTable}
use fastauth.Security.Lockout.{LockoutOptions, lockout_key, check_locked, rekey}
use fastauth.Security.Lockout.Locked.{
  is_refused, is_locked, lockout_key-injective, is_locked-merged, is_refused-check_locked,
}

module _ {S : Type 0} (store : RateLimitStorage S) (config : LockoutOptions) where
  abbrev pub refused : String → ℕ → S → Bool
  refused identifier now_ms s = is_refused (check_locked store config identifier now_ms s).0

module _ {S : Type 0} (store : RateLimitStorage S) (config : LockoutOptions)
    (t : IsBucketTable store) (on : config.enabled ≡ true)
    (old_identifier new_identifier new_id : String) (now_ms : ℕ) (s : S)
    (moved : old_identifier ≢ new_identifier) where
  after_rekey :
      (j : String)
      → is_locked config now_ms (
          t.view (rekey store config old_identifier new_identifier new_id now_ms s) (lockout_key j))
        ≡ (if old_identifier == j
            then false
            else if new_identifier == j
            then is_locked config now_ms (t.view s (lockout_key old_identifier))
              || is_locked config now_ms (t.view s (lockout_key new_identifier))
            else is_locked config now_ms (t.view s (lockout_key j)))
  unfolding rekey
  after_rekey j = ground (
    arith,
    t.rekey_view new_id (lockout_key old_identifier) (lockout_key new_identifier)
        (config.window_seconds * 1000) now_ms s (lockout_key j),
    is_locked-merged config now_ms (t.view s (lockout_key old_identifier))
        (t.view s (lockout_key new_identifier)),
    eq_iff old_identifier new_identifier,
    eq_iff old_identifier j,
    eq_iff new_identifier j,
    eq_iff (lockout_key old_identifier) (lockout_key j),
    eq_iff (lockout_key new_identifier) (lockout_key j),
    lockout_key-injective old_identifier j,
    lockout_key-injective new_identifier j,
  )

  -- Over any storage that is a table of buckets, with lockout enabled and two different identifiers:
  -- at the moment of a rekey, the new identifier is refused after it exactly if the old one or the
  -- new one was refused before it; the old one is no longer refused; and every other one is refused
  -- or not as before.
  pub rekey-refused :
      (j : String)
      → refused store config j now_ms
          (rekey store config old_identifier new_identifier new_id now_ms s)
        ≡ (if old_identifier == j
            then false
            else if new_identifier == j
            then refused store config old_identifier now_ms s
              || refused store config new_identifier now_ms s
            else refused store config j now_ms s)
  rekey-refused j =
      let locked = is_refused-check_locked store config t on in
      rw
        (
          locked j now_ms (rekey store config old_identifier new_identifier new_id now_ms s),
          locked old_identifier now_ms s,
          locked new_identifier now_ms s,
          locked j now_ms s,
        )
        (after_rekey j)
