-- ===== src/Security/RateLimit/Window.antt =====
-- Requests to `RateLimiter.check` within one window, over any storage that keeps the contract.
use fastauth.Prelude.{
  ℕ, suc, ◌+◌, ◌-◌, ◌*◌, ◌<◌, min, String, ◌≡◌, refl, ◌∙◌, ap, true, Option, some, List, [], ◌∷◌,
  arith, eq_refl, length, ltb, if◌then◌else◌,
}
use mathlib.Core.Path.{ap₂}
use fastauth.Domain.Errors.{Exec, Result, ok, err}
use fastauth.Security.Buckets.{hit, RateLimitStorage, IsBucketTable}
use fastauth.Security.RateLimit.{
  ParsedIp, RateLimiter, rule_for, bucket_key, normalise_ip, count_request, check,
}

-- Every time is before the end of a window.
abbrev pub AllBefore : ℕ → List ℕ → Type 0
AllBefore finish [] = Unit
AllBefore finish (now_ms ∷ times) = (now_ms < finish) × AllBefore finish times

abbrev passed : Result (Unit {0}) → ℕ
passed (ok _) = 1
passed (err _) = 0

-- The number of requests that are let through, one after the other, at the given times.
abbrev pub admitted : {S : Type 0} → (ℕ → Exec S (Unit {0})) → List ℕ → S → ℕ
admitted request [] s = 0
admitted request (now_ms ∷ times) s =
    let (r, s') = request now_ms s in passed r + admitted request times s'

one_more :
    (most count n : ℕ)
    → (if ltb most (count + 1) then 0 else 1) + min (most - (count + 1)) n
      ≡ min (most - count) (suc n)
one_more most count n = ground arith

first_one : (most n : ℕ) → (if ltb most 1 then 0 else 1) + min (most - 1) n ≡ min most (suc n)
first_one most n = ground arith

module _ {S : Type 0} (store : RateLimitStorage S) (parse_ip : String → Option ParsedIp)
    (t : IsBucketTable store) (window_seconds max_requests : ℕ) (key new_id : String) where
  abbrev request : ℕ → Exec S (Unit {0})
  request now_ms s = count_request store parse_ip (window_seconds, max_requests) key new_id now_ms s

  -- One request in an open window.
  count_in_window :
      (now_ms count start : ℕ) (s : S)
      → t.view s key ≡ some (count, start)
      → now_ms < start + window_seconds * 1000
      → let (r, s') =
          count_request store parse_ip (window_seconds, max_requests) key new_id now_ms s in
        (t.view s' key ≡ some (count + 1, start))
        × (passed r ≡ (if ltb max_requests (count + 1) then 0 else 1))
  unfolding count_request
  count_in_window now_ms count start s open_at before = ground (
    arith,
    t.increment_result new_id key (window_seconds * 1000) now_ms s,
    t.increment_view new_id key (window_seconds * 1000) now_ms s key,
    eq_refl key,
  )

  admitted_in_window :
      (times : List ℕ) (count start : ℕ) (s : S)
      → t.view s key ≡ some (count, start)
      → AllBefore (start + window_seconds * 1000) times
      → admitted request times s ≡ min (max_requests - count) (length times)
  admitted_in_window [] count start s open_at before = omega arith
  admitted_in_window (now_ms ∷ times) count start s open_at before =
      let (next, one) = count_in_window now_ms count start s open_at before.0 in
      ap₂ ◌+◌ one (admitted_in_window times (count + 1) start _ next before.1)
      ∙ one_more max_requests count (length times)

  -- The first request of a window.
  count_first :
      (now_ms : ℕ) (s : S)
      → hit (window_seconds * 1000) now_ms (t.view s key) ≡ (1, now_ms)
      → (t.view (request now_ms s).1 key ≡ some (1, now_ms))
        × (passed (request now_ms s).0 ≡ (if ltb max_requests 1 then 0 else 1))
  unfolding count_request
  count_first now_ms s fresh = ground (
    arith,
    t.increment_result new_id key (window_seconds * 1000) now_ms s,
    t.increment_view new_id key (window_seconds * 1000) now_ms s key,
    eq_refl key,
  )

  admitted_from_first :
      (first : ℕ) (times : List ℕ) (s : S)
      → hit (window_seconds * 1000) first (t.view s key) ≡ (1, first)
      → AllBefore (first + window_seconds * 1000) times
      → admitted request (first ∷ times) s ≡ min max_requests (suc (length times))
  admitted_from_first first times s fresh before =
      let (next, one) = count_first first s fresh in
      ap₂ ◌+◌ one (admitted_in_window times 1 first _ next before)
      ∙ first_one max_requests (length times)

check_counts :
    {S : Type 0} (store : RateLimitStorage S) (parse_ip : String → Option ParsedIp)
    (limiter : RateLimiter) (path ip_address new_id : String) (now_ms : ℕ) (s : S)
    → limiter.enabled ≡ true
    → check store parse_ip limiter path (some ip_address) new_id now_ms s
      ≡ count_request store parse_ip
          (rule_for limiter path)
          (bucket_key (normalise_ip parse_ip ip_address limiter.ipv6_subnet) path)
          new_id
          now_ms
          s
unfolding check
check_counts store parse_ip limiter path ip_address new_id now_ms s on = simp on refl

admitted_cong :
    {S : Type 0} (f g : ℕ → Exec S (Unit {0})) (times : List ℕ) (s : S)
    → ((now_ms : ℕ) (s' : S) → f now_ms s' ≡ g now_ms s')
    → admitted f times s ≡ admitted g times s
admitted_cong f g [] s same = refl
admitted_cong f g (now_ms ∷ times) s same =
    rw (same now_ms s)
      (ap (λ n. passed (g now_ms s).0 + n) (admitted_cong f g times (g now_ms s).1 same))

-- Over any storage that is a table of buckets, an enabled limiter that sees a first request to a
-- path from an address with no open window, and then requests at times before that window ends, lets
-- through as many as the rule of the path admits, and all if there are fewer.
pub check-admits :
    {S : Type 0} (store : RateLimitStorage S) (parse_ip : String → Option ParsedIp)
    (t : IsBucketTable store) (limiter : RateLimiter) (path ip_address new_id : String) (first : ℕ)
    (times : List ℕ) (s : S)
    → limiter.enabled ≡ true
    → let (window_seconds, max_requests) = rule_for limiter path in
      let key = bucket_key (normalise_ip parse_ip ip_address limiter.ipv6_subnet) path in
      hit (window_seconds * 1000) first (t.view s key) ≡ (1, first)
      → AllBefore (first + window_seconds * 1000) times
      → admitted
          (λ now_ms. check store parse_ip limiter path (some ip_address) new_id now_ms)
          (first ∷ times)
          s
        ≡ min max_requests (suc (length times))
check-admits store parse_ip t limiter path ip_address new_id first times s on fresh before =
    admitted_cong _ _ (first ∷ times) s
      (λ now_ms s'. check_counts store parse_ip limiter path ip_address new_id now_ms s' on)
    ∙ admitted_from_first store parse_ip t (rule_for limiter path).0 (rule_for limiter path).1
        (bucket_key (normalise_ip parse_ip ip_address limiter.ipv6_subnet) path) new_id first times
        s fresh before
