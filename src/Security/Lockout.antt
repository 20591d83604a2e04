-- ===== src/Security/Lockout.antt =====
-- src/fastauth/security/lockout.py: failed sign-ins counted in the buckets of a rate-limit storage,
-- one per identifier. `new_id` is the id that a new row gets, and `now_ms` the clock that the call
-- reads.
pub mod Locked
pub mod Failures
pub mod Rekey
use fastauth.Prelude.{
  ℕ, ◌+◌, ◌-◌, ◌*◌, String, Bool, not, ◌||◌, Option, none, some, leb, ◌==◌, if◌then◌else◌,
}
use fastauth.Domain.Models.{RateLimit}
use fastauth.Domain.Errors.{Exec, Result, ok, err, account_locked}
use fastauth.Security.Buckets.{RateLimitStorage}
use fastauth.Security.RateLimit.{retry_after}
use Prim.Native.String.{◌++◌}

-- The fields of `LockoutOptions`.
pub record LockoutOptions : Type 0 where
  pub enabled : Bool
  pub max_failures : ℕ
  pub window_seconds : ℕ

unfoldable pub lockout_key : String → String
lockout_key identifier = "lockout:" ++ identifier

-- The test that `check_locked` makes of the row that it finds: past the maximum, and the window
-- still open.
unfoldable pub locked_row : LockoutOptions → ℕ → Option RateLimit → Result (Unit {0})
locked_row config now_ms none = ok tt
locked_row config now_ms (some existing) =
    if leb existing.count config.max_failures
    then ok tt
    else if leb (existing.last_request_ms + config.window_seconds * 1000) now_ms
    then ok tt
    else err (
        account_locked (retry_after existing.last_request_ms (config.window_seconds * 1000) now_ms))

module _ {S : Type 0} (store : RateLimitStorage S) (config : LockoutOptions) where
  unfoldable pub check_locked : String → ℕ → Exec S (Unit {0})
  check_locked identifier now_ms s =
      if not config.enabled
      then (ok tt, s)
      else (locked_row config now_ms (store.get (lockout_key identifier) s), s)

  -- The seconds to wait, if this failure is past the maximum.
  unfoldable pub record_failure : String → String → ℕ → S → Option ℕ × S
  record_failure identifier new_id now_ms s =
      if not config.enabled
      then (none, s)
      else let window_ms = config.window_seconds * 1000 in
        let ((count, start), s') =
          store.increment new_id (lockout_key identifier) window_ms now_ms s in
        if leb count config.max_failures
        then (none, s')
        else (some (retry_after start window_ms now_ms), s')

  unfoldable pub reset : String → S → S
  reset identifier s = if not config.enabled then s else store.delete (lockout_key identifier) s

  unfoldable pub rekey : String → String → String → ℕ → S → S
  rekey old_identifier new_identifier new_id now_ms s =
      if not config.enabled || old_identifier == new_identifier
      then s
      else store.rekey new_id (lockout_key old_identifier) (lockout_key new_identifier)
          (config.window_seconds * 1000) now_ms s
