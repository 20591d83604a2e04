-- ===== src/Security/RateLimit.antt =====
-- src/fastauth/security/rate_limit.py. `new_id` is the id that a new row gets, and `now_ms` the clock
-- that the call reads. The parsing of addresses is Python's `ipaddress`, a parameter.
pub mod Storage
pub mod Refinement
pub mod Shared
pub mod Window
use fastauth.Prelude.{
  ℕ, ◌+◌, ◌-◌, ◌*◌, ◌/◌, max, String, Bool, not, Option, none, some, List, [], ◌∷◌, ltb, is_some,
  ◌||◌, if◌then◌else◌,
}
use fastauth.Dict.{Dict, get, put}
use fastauth.Domain.Errors.{Exec, ok, err, rate_limited}
use fastauth.Security.Buckets.{RateLimitStorage}
use Prim.Native.String.{◌++◌}

-- What `ipaddress.ip_address` returns: an IPv4 address in canonical form, or an IPv6 address with
-- the IPv4 address that it maps, if any, and its network of each prefix length.
pub data ParsedIp : Type 0 where
  ipv4 : String → ParsedIp
  ipv6 : Option String → (ℕ → String) → ParsedIp

abbrev pub bucket_address : ℕ → String → Option ParsedIp → String
bucket_address ipv6_subnet ip_address none = ip_address
bucket_address ipv6_subnet ip_address (some (ipv4 text)) = text
bucket_address ipv6_subnet ip_address (some (ipv6 (some mapped) network)) = mapped
bucket_address ipv6_subnet ip_address (some (ipv6 none network)) = network ipv6_subnet

unfoldable pub normalise_ip : (String → Option ParsedIp) → String → ℕ → String
normalise_ip parse_ip ip_address ipv6_subnet =
    bucket_address ipv6_subnet ip_address (parse_ip ip_address)

-- A window in seconds and the requests that it admits.
abbrev pub Rule : Type 0
Rule = ℕ × ℕ

abbrev pub default_strict_rules : Dict Rule
default_strict_rules =
    ("/sign-in/email", (10, 3))
    ∷ ("/sign-in/username", (10, 3))
    ∷ ("/send-verification-email", (60, 5))
    ∷ ("/forgot-password", (60, 5))
    ∷ ("/reset-password", (10, 3))
    ∷ []

-- The fields of `RateLimitOptions` and `AdvancedOptions` that the limiter reads, and its table of
-- plugin rules.
pub record RateLimiter : Type 0 where
  pub enabled : Bool
  pub window_seconds : ℕ
  pub max_requests : ℕ
  pub ipv6_subnet : ℕ
  pub plugin_rules : Dict Rule

-- `{rule.path: (seconds, rule.max_requests) for rule in plugin_rules}`: a later rule wins.
unfoldable pub rule_table : List (String × Rule) → Dict Rule → Dict Rule
rule_table [] table = table
rule_table ((path, rule) ∷ rules) table = rule_table rules (put table path rule)

unfoldable pub rule_for : RateLimiter → String → Rule
rule_for limiter path = elim (get limiter.plugin_rules path) [
  | some rule ↦ rule
  | none ↦ elim (get default_strict_rules path) [
    | some rule ↦ rule
    | none ↦ (limiter.window_seconds, limiter.max_requests)
  ]
]

unfoldable pub bucket_key : String → String → String
bucket_key bucket path = "ip:" ++ (bucket ++ (":" ++ path))

-- The seconds until a window ends, at least one. The window that `increment` returns has not ended,
-- so the difference is never below zero.
abbrev pub retry_after : ℕ → ℕ → ℕ → ℕ
retry_after start window_ms now_ms = max 1 ((start + window_ms - now_ms) / 1000)

module _ {S : Type 0} (store : RateLimitStorage S) (parse_ip : String → Option ParsedIp) where
  -- One request counted under a key against a rule.
  unfoldable pub count_request : Rule → String → String → ℕ → Exec S (Unit {0})
  count_request (window_seconds, max_requests) key new_id now_ms s =
      let ((count, start), s') = store.increment new_id key (window_seconds * 1000) now_ms s in
      if ltb max_requests count
      then (err (rate_limited (retry_after start (window_seconds * 1000) now_ms)), s')
      else (ok tt, s')

  unfoldable pub check : RateLimiter → String → Option String → String → ℕ → Exec S (Unit {0})
  unfolding count_request
  check limiter path none new_id now_ms s = (ok tt, s)
  check limiter path (some ip_address) new_id now_ms s =
      if not limiter.enabled
      then (ok tt, s)
      else count_request (rule_for limiter path)
          (bucket_key (normalise_ip parse_ip ip_address limiter.ipv6_subnet) path) new_id now_ms s
