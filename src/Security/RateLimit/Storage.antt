-- ===== src/Security/RateLimit/Storage.antt =====
-- The two storages: `MemoryRateLimitStorage`, whose state is its own table, and
-- `DatabaseRateLimitStorage`, which passes every call on to the adapter.
use fastauth.Prelude.{ℕ, String}
use fastauth.Dict.{Dict, get, put, remove}
use fastauth.Domain.Models.{RateLimit}
use fastauth.Memory.{Memory}
use fastauth.Memory.RateLimits.{
  hit_bucket, active_pair, rekey_buckets, increment_rate_limit, get_rate_limit, upsert_rate_limit,
  rekey_rate_limit, delete_rate_limit,
}
use fastauth.Security.Buckets.{RateLimitStorage}

unfoldable pub memory_increment :
    String → String → ℕ → ℕ → Dict RateLimit → (ℕ × ℕ) × Dict RateLimit
unfolding hit_bucket
memory_increment new_id key window_ms now_ms state =
    let updated = hit_bucket new_id key window_ms now_ms (get state key) in
    ((updated.count, updated.last_request_ms), put state key updated)

-- The whole row is replaced.
unfoldable pub memory_upsert : RateLimit → Dict RateLimit → RateLimit × Dict RateLimit
memory_upsert rate_limit state = (rate_limit, put state rate_limit.key rate_limit)

unfoldable pub memory_rekey : String → String → String → ℕ → ℕ → Dict RateLimit → Dict RateLimit
unfolding rekey_buckets
memory_rekey new_id old_key new_key window_ms now_ms state =
    rekey_buckets new_id old_key new_key (active_pair window_ms now_ms old_key new_key state) state

abbrev pub memory_storage : RateLimitStorage (Dict RateLimit)
memory_storage = record {
  increment = memory_increment;
  get = λ key state. get state key;
  upsert = memory_upsert;
  rekey = memory_rekey;
  delete = λ key state. remove state key;
}

abbrev pub database_storage : RateLimitStorage Memory
database_storage = record {
  increment = increment_rate_limit;
  get = get_rate_limit;
  upsert = upsert_rate_limit;
  rekey = rekey_rate_limit;
  delete = delete_rate_limit;
}
