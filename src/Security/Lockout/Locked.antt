-- ===== src/Security/Lockout/Locked.antt =====
-- The bucket of an identifier, and what `check_locked` makes of it.
use fastauth.Prelude.{
  ℕ, ◌+◌, ◌*◌, String, ◌≡◌, refl, Bool, true, false, ◌&&◌, ◌||◌, Option, none, some, arith, ltb,
  inl, inr, Option-cases,
}
use fastauth.Domain.Errors.{Result, ok, err}
use fastauth.Security.Buckets.{Bucket, active, merged, RateLimitStorage, IsBucketTable}
use fastauth.Security.Lockout.{LockoutOptions, lockout_key, locked_row, check_locked}
use text.Mathlib.TextLemmas.{append_cancel_left}

abbrev pub is_refused : Result (Unit {0}) → Bool
is_refused (ok _) = false
is_refused (err _) = true

-- A bucket is locked: more failures than the maximum, in a window that is still open.
abbrev pub is_locked : LockoutOptions → ℕ → Option Bucket → Bool
is_locked config now_ms none = false
is_locked config now_ms (some (count, start)) =
    ltb config.max_failures count && ltb now_ms (start + config.window_seconds * 1000)

pub lockout_key-injective : (i j : String) → lockout_key i ≡ lockout_key j → i ≡ j
unfolding lockout_key
lockout_key-injective i j same = append_cancel_left "lockout:" i j same

pub is_locked-merged :
    (config : LockoutOptions) (now_ms : ℕ) (a b : Option Bucket)
    → let window_ms = config.window_seconds * 1000 in
      is_locked config now_ms (merged (active window_ms now_ms a) (active window_ms now_ms b))
      ≡ (is_locked config now_ms a || is_locked config now_ms b)
is_locked-merged config now_ms none none = refl
is_locked-merged config now_ms none (some b) = ground arith
is_locked-merged config now_ms (some a) none = ground arith
is_locked-merged config now_ms (some a) (some b) = ground arith

module _ {S : Type 0} (store : RateLimitStorage S) (config : LockoutOptions)
    (t : IsBucketTable store) (on : config.enabled ≡ true) where
  pub is_refused-check_locked :
      (identifier : String) (now_ms : ℕ) (s : S)
      → is_refused (check_locked store config identifier now_ms s).0
        ≡ is_locked config now_ms (t.view s (lockout_key identifier))
  unfolding check_locked locked_row
  is_refused-check_locked identifier now_ms s =
      elim (Option-cases (store.get (lockout_key identifier) s)) [
        | inl e ↦ ground (arith, t.get_view (lockout_key identifier) s)
        | inr (row, e) ↦ ground (arith, t.get_view (lockout_key identifier) s)
      ]
