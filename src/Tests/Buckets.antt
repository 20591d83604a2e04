-- ===== src/Tests/Buckets.antt =====
-- The rate limiter and the lockout tracker on a concrete storage.
use fastauth.Prelude.{
  ℕ, String, ◌≡◌, refl, sym, ap, true, false, ◌||◌, none, some, [], ◌∷◌, arith, eq_iff,
}
use fastauth.Dict.{Dict, get}
use fastauth.Domain.Models.{RateLimit}
use fastauth.Security.Buckets.{hit, IsBucketTable}
use fastauth.Security.RateLimit.{RateLimiter, rule_for, check}
use fastauth.Security.RateLimit.Storage.{memory_storage}
use fastauth.Security.RateLimit.Refinement.{memory_storage-IsBucketTable}
use fastauth.Security.RateLimit.Window.{admitted, check-admits}
use fastauth.Security.Lockout.{LockoutOptions, reset, rekey}
use fastauth.Security.Lockout.Rekey.{refused, rekey-refused}
use fastauth.Security.Lockout.Failures.{failures, check_locked-failures, check_locked-reset}

abbrev limiter : RateLimiter
limiter = record {
  enabled = true;
  window_seconds = 60;
  max_requests = 100;
  ipv6_subnet = 64;
  plugin_rules = [];
}

-- No window is open in an empty storage.
no_window :
    (window_ms now_ms : ℕ) (key : String)
    → hit window_ms now_ms (IsBucketTable.view memory_storage-IsBucketTable [] key) ≡ (1, now_ms)
unfolding get
no_window window_ms now_ms key =
    ap (hit window_ms now_ms) (sym (IsBucketTable.get_view memory_storage-IsBucketTable key []))

check-admits_example :
    admitted
      (λ now_ms.
        check memory_storage (λ _. none) limiter "/sign-in/email" (some "10.0.0.1") "id" now_ms)
      (5 ∷ 6 ∷ 7 ∷ 8 ∷ 9 ∷ [])
      []
    ≡ 3
unfolding rule_for get
check-admits_example =
    check-admits memory_storage (λ _. none) memory_storage-IsBucketTable limiter "/sign-in/email"
      "10.0.0.1" "id" 5 (6 ∷ 7 ∷ 8 ∷ 9 ∷ []) [] refl (no_window _ 5 _)
      (omega arith, (omega arith, (omega arith, (omega arith, tt))))

abbrev lockout : LockoutOptions
lockout = record { enabled = true; max_failures = 2; window_seconds = 60 }

check_locked-failures_example :
    refused memory_storage lockout "alice" 20
      (failures memory_storage lockout "alice" "id" (5 ∷ 6 ∷ 7 ∷ []) [])
    ≡ true
check_locked-failures_example =
    check_locked-failures memory_storage lockout memory_storage-IsBucketTable refl "alice" "id" 5
      (6 ∷ 7 ∷ []) 20 [] (no_window _ 5 _) (omega arith, (omega arith, tt))

check_locked-reset_example :
    refused memory_storage lockout "alice" 20 (
      reset memory_storage lockout "alice"
        (failures memory_storage lockout "alice" "id" (5 ∷ 6 ∷ 7 ∷ []) []))
    ≡ false
check_locked-reset_example =
    check_locked-reset memory_storage lockout memory_storage-IsBucketTable refl "alice" "id" 20
      (failures memory_storage lockout "alice" "id" (5 ∷ 6 ∷ 7 ∷ []) [])

abbrev locked_out : Dict RateLimit
locked_out = failures memory_storage lockout "alice" "id" (5 ∷ 6 ∷ 7 ∷ []) []

rekey-refused_example :
    refused memory_storage lockout "bob" 20
      (rekey memory_storage lockout "alice" "bob" "id" 20 locked_out)
    ≡ (refused memory_storage lockout "alice" 20 locked_out
        || refused memory_storage lockout "bob" 20 locked_out)
rekey-refused_example =
    rekey-refused memory_storage lockout memory_storage-IsBucketTable refl "alice" "bob" "id" 20
      locked_out (λ e. ground (arith, eq_iff "alice" "bob")) "bob"
