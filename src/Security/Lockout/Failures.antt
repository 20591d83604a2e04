-- ===== src/Security/Lockout/Failures.antt =====
-- `check_locked` of src/fastauth/security/lockout.py after failures and after a reset.
use fastauth.Prelude.{
  ℕ, suc, ◌+◌, ◌*◌, String, ◌≡◌, ◌∙◌, ap, true, false, ◌&&◌, some, List, [], ◌∷◌, arith, eq_refl,
  length, ltb,
}
use fastauth.Security.Buckets.{hit, RateLimitStorage, IsBucketTable}
use fastauth.Security.RateLimit.Window.{AllBefore}
use fastauth.Security.Lockout.{LockoutOptions, lockout_key, record_failure, reset}
use fastauth.Security.Lockout.Locked.{is_locked, is_refused-check_locked}
use fastauth.Security.Lockout.Rekey.{refused}

module _ {S : Type 0} (store : RateLimitStorage S) (config : LockoutOptions)
    (identifier new_id : String) where
  -- Failures of the identifier recorded one after the other at the given times.
  abbrev pub failures : List ℕ → S → S
  failures [] s = s
  failures (now_ms ∷ times) s =
      failures times (record_failure store config identifier new_id now_ms s).1

module _ {S : Type 0} (store : RateLimitStorage S) (config : LockoutOptions)
    (t : IsBucketTable store) (on : config.enabled ≡ true) (identifier new_id : String) where
  view-record_failure :
      (now_ms : ℕ) (s : S)
      → t.view (record_failure store config identifier new_id now_ms s).1 (lockout_key identifier)
        ≡ some (hit (config.window_seconds * 1000) now_ms (t.view s (lockout_key identifier)))
  unfolding record_failure
  view-record_failure now_ms s = ground (
    arith,
    t.increment_view new_id (lockout_key identifier) (config.window_seconds * 1000) now_ms s
        (lockout_key identifier),
    eq_refl (lockout_key identifier),
  )

  view-failures :
      (times : List ℕ) (count start : ℕ) (s : S)
      → t.view s (lockout_key identifier) ≡ some (count, start)
      → AllBefore (start + config.window_seconds * 1000) times
      → t.view (failures store config identifier new_id times s) (lockout_key identifier)
        ≡ some (count + length times, start)
  view-failures [] count start s at before = ground arith
  view-failures (now_ms ∷ times) count start s at before =
      view-failures times (count + 1) start _ (ground (arith, view-record_failure now_ms s))
        before.1
      ∙ ap (λ n. some (n, start)) (omega arith)

  -- Over any storage that is a table of buckets, with lockout enabled: when a failure opens a window
  -- and more failures follow within it, a later check is refused exactly if the failures are more
  -- than the maximum and the window has not ended.
  pub check_locked-failures :
      (first : ℕ) (times : List ℕ) (now_ms : ℕ) (s : S)
      → hit (config.window_seconds * 1000) first (t.view s (lockout_key identifier)) ≡ (1, first)
      → AllBefore (first + config.window_seconds * 1000) times
      → refused store config identifier now_ms
          (failures store config identifier new_id (first ∷ times) s)
        ≡ (ltb config.max_failures (suc (length times))
            && ltb now_ms (first + config.window_seconds * 1000))
  check_locked-failures first times now_ms s fresh before =
      let after = record_failure store config identifier new_id first s in
      is_refused-check_locked store config t on identifier now_ms
        (failures store config identifier new_id times after.1)
      ∙ ap (is_locked config now_ms)
          (view-failures times 1 first after.1 (view-record_failure first s ∙ ap some fresh) before)
      ∙ ap (λ n. ltb config.max_failures n && ltb now_ms (first + config.window_seconds * 1000))
          (omega arith)

  -- Over any storage that is a table of buckets, with lockout enabled: after a reset the identifier
  -- is not refused at any time.
  pub check_locked-reset :
      (now_ms : ℕ) (s : S)
      → refused store config identifier now_ms (reset store config identifier s) ≡ false
  unfolding reset
  check_locked-reset now_ms s =
      is_refused-check_locked store config t on identifier now_ms _
      ∙ ground (
        arith,
        t.delete_view (lockout_key identifier) s (lockout_key identifier),
        eq_refl (lockout_key identifier),
      )
