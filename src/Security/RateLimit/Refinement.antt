-- ===== src/Security/RateLimit/Refinement.antt =====
-- The two storages of src/fastauth/security/rate_limit.py as tables of buckets.
use fastauth.Prelude.{
  ℕ, String, ◌≡◌, refl, Option, none, some, List, [], ◌∷◌, ◌++◌, arith, ◌==◌, if◌then◌else◌,
  Option-cases,
}
use fastauth.Dict.{Dict, get, put, remove}
use fastauth.Dict.Laws.{get-put, get-remove}
use fastauth.Domain.Models.{RateLimit}
use fastauth.Memory.RateLimits.{
  hit_bucket, active_bucket, rekey_buckets, strictest_from, increment_rate_limit, get_rate_limit,
  upsert_rate_limit, rekey_rate_limit, delete_rate_limit,
}
use fastauth.Security.Buckets.{bucket_of, hit, active, merged, IsBucketTable}
use fastauth.Security.RateLimit.Storage.{
  memory_increment, memory_upsert, memory_rekey, memory_storage, database_storage,
}

hit_bucket-hit :
    (new_id key : String) (window_ms now_ms : ℕ) (row : Option RateLimit)
    → bucket_of (some (hit_bucket new_id key window_ms now_ms row))
      ≡ some (hit window_ms now_ms (bucket_of row))
unfolding hit_bucket
hit_bucket-hit new_id key window_ms now_ms none = refl
hit_bucket-hit new_id key window_ms now_ms (some row) = ground arith

module _ (new_id old_key new_key : String) (d : Dict RateLimit) (j : String) where
  rekey_nil :
      bucket_of (get (rekey_buckets new_id old_key new_key [] d) j)
      ≡ (if old_key == j then none else if new_key == j then none else bucket_of (get d j))
  unfolding rekey_buckets
  rekey_nil = ground (arith, get-remove (remove d new_key) old_key j, get-remove d new_key j)

  rekey_cons :
      (row : RateLimit) (rest : List RateLimit)
      → let selected = strictest_from row rest in
        bucket_of (get (rekey_buckets new_id old_key new_key (row ∷ rest) d) j) ≡ (
          if old_key == j
          then none
          else if new_key == j
          then some (selected.count, selected.last_request_ms)
          else bucket_of (get d j))
  unfolding rekey_buckets
  rekey_cons row rest =
      let selected = strictest_from row rest in
      let stored : RateLimit = record {
        id = new_id;
        key = new_key;
        count = selected.count;
        last_request_ms = selected.last_request_ms;
      } in
      ground (arith, get-remove (put d new_key stored) old_key j, get-put d new_key j stored)

  -- The table after a merge, by the rows that stood under the two keys.
  rekey_buckets-view :
      (window_ms now_ms : ℕ) (a b : Option RateLimit)
      → bucket_of (
          get
            (rekey_buckets new_id old_key new_key
              (active_bucket window_ms now_ms a ++ active_bucket window_ms now_ms b)
              d)
            j)
        ≡ (if old_key == j
            then none
            else if new_key == j
            then merged
                (active window_ms now_ms (bucket_of a))
                (active window_ms now_ms (bucket_of b))
            else bucket_of (get d j))
  unfolding strictest_from
  rekey_buckets-view window_ms now_ms none none = rekey_nil
  rekey_buckets-view window_ms now_ms none (some b) = ground (arith, rekey_nil, rekey_cons b [])
  rekey_buckets-view window_ms now_ms (some a) none = ground (arith, rekey_nil, rekey_cons a [])
  rekey_buckets-view window_ms now_ms (some a) (some b) =
      ground (arith, rekey_nil, rekey_cons a [], rekey_cons b [], rekey_cons a (b ∷ []))

-- `MemoryRateLimitStorage` keeps the contract: each key has one bucket, a hit counts up in an open
-- window and opens a new one otherwise, a rekey leaves the stricter of the two open buckets under the
-- new key and none under the old one, and no operation touches the bucket of another key.
pub memory_storage-IsBucketTable : IsBucketTable memory_storage
unfolding memory_increment memory_upsert memory_rekey
memory_storage-IsBucketTable = record {
  view = λ state key. bucket_of (get state key);
  get_view = λ key state. refl;
  increment_result = λ new_id key window_ms now_ms state.
      ground (arith, hit_bucket-hit new_id key window_ms now_ms (get state key));
  increment_view = λ new_id key window_ms now_ms state j. ground (
    arith,
    get-put state key j (hit_bucket new_id key window_ms now_ms (get state key)),
    hit_bucket-hit new_id key window_ms now_ms (get state key),
  );
  upsert_view = λ row state j. ground (arith, get-put state row.key j row);
  rekey_view = λ new_id old_key new_key window_ms now_ms state j.
      rekey_buckets-view new_id old_key new_key state j window_ms now_ms (get state old_key)
        (get state new_key);
  delete_view = λ key state j. ground (arith, get-remove state key j);
}

-- `DatabaseRateLimitStorage` over the in-memory adapter keeps the same contract of a table of
-- buckets.
pub database_storage-IsBucketTable : IsBucketTable database_storage
unfolding increment_rate_limit upsert_rate_limit rekey_rate_limit get_rate_limit delete_rate_limit
database_storage-IsBucketTable = record {
  view = λ m key. bucket_of (get m.rate_limits key);
  get_view = λ key m. refl;
  increment_result = λ new_id key window_ms now_ms m.
      ground (arith, hit_bucket-hit new_id key window_ms now_ms (get m.rate_limits key));
  increment_view = λ new_id key window_ms now_ms m j. ground (
    arith,
    get-put m.rate_limits key j (hit_bucket new_id key window_ms now_ms (get m.rate_limits key)),
    hit_bucket-hit new_id key window_ms now_ms (get m.rate_limits key),
  );
  upsert_view = λ row m j. ground (
    arith,
    get-put m.rate_limits row.key j (upsert_rate_limit row m).0,
    Option-cases (get m.rate_limits row.key),
  );
  rekey_view = λ new_id old_key new_key window_ms now_ms m j.
      rekey_buckets-view new_id old_key new_key m.rate_limits j window_ms now_ms
        (get m.rate_limits old_key) (get m.rate_limits new_key);
  delete_view = λ key m j. ground (arith, get-remove m.rate_limits key j);
}
