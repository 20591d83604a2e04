-- ===== src/Security/Tracker.antt =====
-- `AccountLockoutTracker` of src/fastauth/security/lockout.py as the flows call it: on the storage that
-- the options choose, with the clock and the id of a new row drawn for each call.
pub mod Calls
use fastauth.Prelude.{ℕ, ◌/◌, String, Bool, not, Option, none, some, if◌then◌else◌}
use fastauth.Domain.Errors.{Exec, pure, ok, ◌>>=◌}
use fastauth.Runtime.World.{External, World, utc_now, new_id}
use fastauth.Domain.Models.{RateLimit}
use fastauth.Security.Lockout.{LockoutOptions, lockout_key}
use fastauth.Security.Lockout
use fastauth.Security.RateLimit.Shared.{RateLimitStorageKind, rate_storage}

pub record TrackerOptions : Type 0 where
  pub storage : RateLimitStorageKind
  pub lockout : LockoutOptions

module _ (external : External) (options : TrackerOptions) where
  unfoldable pub now_ms : Exec World ℕ
  now_ms = do now ← utc_now external; pure (now / 1000)

  -- The clock is read where there is a row, which is found again.
  unfoldable pub check_found : String → Option RateLimit → Exec World (Unit {0})
  check_found identifier none = pure tt
  check_found identifier (some existing) = do
    now ← now_ms
    Lockout.check_locked (rate_storage options.storage) options.lockout identifier now

  unfoldable pub check_row : String → Exec World (Unit {0})
  check_row identifier w =
      check_found identifier ((rate_storage options.storage).get (lockout_key identifier) w) w

  unfoldable pub check_locked : String → Exec World (Unit {0})
  check_locked identifier = if not options.lockout.enabled then pure tt else check_row identifier

  unfoldable pub count_row : String → String → ℕ → Exec World (Option ℕ)
  count_row identifier row_id now w =
      let (retry_after, w') =
        Lockout.record_failure (rate_storage options.storage) options.lockout identifier row_id now
          w in
      (ok retry_after, w')

  -- An id is drawn whether a row is new or not.
  unfoldable pub count_failure : String → Exec World (Option ℕ)
  count_failure identifier = do
    now ← now_ms
    row_id ← new_id external
    count_row identifier row_id now

  unfoldable pub record_failure : String → Exec World (Option ℕ)
  record_failure identifier =
      if not options.lockout.enabled then pure none else count_failure identifier

  unfoldable pub reset : String → Exec World (Unit {0})
  reset identifier w =
      (ok tt, Lockout.reset (rate_storage options.storage) options.lockout identifier w)

  unfoldable pub rekey_row : String → String → String → ℕ → Exec World (Unit {0})
  rekey_row old_identifier new_identifier row_id now w = (
    ok tt,
    Lockout.rekey (rate_storage options.storage) options.lockout old_identifier new_identifier
        row_id now w,
  )

  unfoldable pub rekey : String → String → Exec World (Unit {0})
  rekey old_identifier new_identifier = do
    now ← now_ms
    row_id ← new_id external
    rekey_row old_identifier new_identifier row_id now
