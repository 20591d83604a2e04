-- ===== src/Memory/RateLimits.antt =====
-- The rate-limit methods of `InMemoryAdapter`, and the two decisions that they share with
-- `MemoryRateLimitStorage`. A bucket counts the hits of a fixed window, and `last_request_ms` is the
-- start of that window. `new_id` is the id that the model draws for a new row.
use fastauth.Prelude.{
  ℕ, ◌+◌, String, Bool, ◌&&◌, ◌||◌, Option, none, some, List, [], ◌∷◌, ◌++◌, leb, ltb,
  if◌then◌else◌,
}
use fastauth.Dict.{Dict, get, put, remove}
use fastauth.Domain.Models.{RateLimit}
use fastauth.Memory.State.{Memory}

-- The bucket after one more hit: a new window once the old one has passed.
unfoldable pub hit_bucket : String → String → ℕ → ℕ → Option RateLimit → RateLimit
hit_bucket new_id key window_ms now_ms none = record {
  id = new_id;
  key = key;
  count = 1;
  last_request_ms = now_ms;
}
hit_bucket new_id key window_ms now_ms (some existing) =
    if leb (existing.last_request_ms + window_ms) now_ms
    then record { id = new_id; key = key; count = 1; last_request_ms = now_ms }
    else record {
      id = new_id;
      key = key;
      count = existing.count + 1;
      last_request_ms = existing.last_request_ms;
    }

-- The bucket under a key whose window has not passed, as a list of at most one.
abbrev pub active_bucket : ℕ → ℕ → Option RateLimit → List RateLimit
active_bucket window_ms now_ms none = []
active_bucket window_ms now_ms (some bucket) =
    if ltb now_ms (bucket.last_request_ms + window_ms) then bucket ∷ [] else []

-- `(a.count, a.last_request_ms) < (b.count, b.last_request_ms)`
abbrev pub weaker : RateLimit → RateLimit → Bool
weaker a b = ltb a.count b.count || leb a.count b.count && ltb a.last_request_ms b.last_request_ms

-- `max(active, key=...)`: the first of the greatest.
unfoldable pub strictest_from : RateLimit → List RateLimit → RateLimit
strictest_from best [] = best
strictest_from best (bucket ∷ rest) =
    strictest_from (if weaker best bucket then bucket else best) rest

-- The table after `old_key` is merged into `new_key`.
unfoldable pub rekey_buckets :
    String → String → String → List RateLimit → Dict RateLimit → Dict RateLimit
unfolding strictest_from
rekey_buckets new_id old_key new_key [] buckets = remove (remove buckets new_key) old_key
rekey_buckets new_id old_key new_key (bucket ∷ rest) buckets =
    let selected = strictest_from bucket rest in
    remove
      (put buckets new_key (record {
        id = new_id;
        key = new_key;
        count = selected.count;
        last_request_ms = selected.last_request_ms;
      }))
      old_key

abbrev pub active_pair : ℕ → ℕ → String → String → Dict RateLimit → List RateLimit
active_pair window_ms now_ms old_key new_key buckets =
    active_bucket window_ms now_ms (get buckets old_key)
    ++ active_bucket window_ms now_ms (get buckets new_key)

unfoldable pub increment_rate_limit : String → String → ℕ → ℕ → Memory → (ℕ × ℕ) × Memory
unfolding hit_bucket
increment_rate_limit new_id key window_ms now_ms m =
    let updated = hit_bucket new_id key window_ms now_ms (get m.rate_limits key) in
    (
      (updated.count, updated.last_request_ms),
      record m { rate_limits = put m.rate_limits key updated },
    )

unfoldable pub get_rate_limit : String → Memory → Option RateLimit
get_rate_limit key m = get m.rate_limits key

-- A row that is there keeps its id.
unfoldable pub upsert_rate_limit : RateLimit → Memory → RateLimit × Memory
upsert_rate_limit rate_limit m =
    let row : RateLimit = elim (get m.rate_limits rate_limit.key) [
      | none ↦ rate_limit
      | some existing ↦ record existing {
        count = rate_limit.count;
        last_request_ms = rate_limit.last_request_ms;
      }
    ] in
    (row, record m { rate_limits = put m.rate_limits rate_limit.key row })

unfoldable pub rekey_rate_limit : String → String → String → ℕ → ℕ → Memory → Memory
unfolding rekey_buckets
rekey_rate_limit new_id old_key new_key window_ms now_ms m = record m {
  rate_limits =
      rekey_buckets new_id old_key new_key
        (active_pair window_ms now_ms old_key new_key m.rate_limits) m.rate_limits;
}

unfoldable pub delete_rate_limit : String → Memory → Memory
delete_rate_limit key m = record m { rate_limits = remove m.rate_limits key }
