-- ===== src/Security/Buckets.antt =====
-- What a rate-limit storage promises: for each key a bucket, the number of hits in a fixed window
-- and the start of that window, and what each operation makes of the buckets.
use fastauth.Prelude.{
  ℕ, ◌+◌, String, ◌≡◌, ◌&&◌, ◌||◌, Option, none, some, ◌==◌, leb, ltb, if◌then◌else◌,
}
use fastauth.Domain.Models.{RateLimit}

-- A count and the start of its window.
abbrev pub Bucket : Type 0
Bucket = ℕ × ℕ

abbrev pub bucket_of : Option RateLimit → Option Bucket
bucket_of none = none
bucket_of (some row) = some (row.count, row.last_request_ms)

-- One hit: a new window opens when none is open.
abbrev pub hit : ℕ → ℕ → Option Bucket → Bucket
hit window_ms now_ms none = (1, now_ms)
hit window_ms now_ms (some (count, start)) =
    if leb (start + window_ms) now_ms then (1, now_ms) else (count + 1, start)

-- The bucket, if its window is still open.
abbrev pub active : ℕ → ℕ → Option Bucket → Option Bucket
active window_ms now_ms none = none
active window_ms now_ms (some (count, start)) =
    if ltb now_ms (start + window_ms) then some (count, start) else none

-- The stricter of two buckets: more hits, then the later window.
abbrev pub stricter : Bucket → Bucket → Bucket
stricter (c, s) (d, t) = if ltb c d || leb c d && ltb s t then (d, t) else (c, s)

abbrev pub merged : Option Bucket → Option Bucket → Option Bucket
merged none b = b
merged (some a) none = some a
merged (some a) (some b) = some (stricter a b)

-- The operations of the protocol `RateLimitStorage`, over a state of the storage's own. The first
-- argument of `increment` and `rekey` is the id for a new row.
pub record RateLimitStorage (S : Type 0) : Type 0 where
  pub increment : String → String → ℕ → ℕ → S → Bucket × S
  pub get : String → S → Option RateLimit
  pub upsert : RateLimit → S → RateLimit × S
  pub rekey : String → String → String → ℕ → ℕ → S → S
  pub delete : String → S → S

-- The contract.
pub record IsBucketTable {S : Type 0} (store : RateLimitStorage S) : Type 0 where
  pub view : S → String → Option Bucket
  pub get_view : (key : String) (s : S) → bucket_of (store.get key s) ≡ view s key
  pub increment_result :
      (new_id key : String) (window_ms now_ms : ℕ) (s : S)
      → (store.increment new_id key window_ms now_ms s).0 ≡ hit window_ms now_ms (view s key)
  pub increment_view :
      (new_id key : String) (window_ms now_ms : ℕ) (s : S) (j : String)
      → view (store.increment new_id key window_ms now_ms s).1 j
        ≡ (if key == j then some (hit window_ms now_ms (view s key)) else view s j)
  pub upsert_view :
      (row : RateLimit) (s : S) (j : String)
      → view (store.upsert row s).1 j
        ≡ (if row.key == j then some (row.count, row.last_request_ms) else view s j)
  pub rekey_view :
      (new_id old_key new_key : String) (window_ms now_ms : ℕ) (s : S) (j : String)
      → view (store.rekey new_id old_key new_key window_ms now_ms s) j ≡ (
          if old_key == j
          then none
          else if new_key == j
          then merged
              (active window_ms now_ms (view s old_key))
              (active window_ms now_ms (view s new_key))
          else view s j)
  pub delete_view :
      (key : String) (s : S) (j : String)
      → view (store.delete key s) j ≡ (if key == j then none else view s j)
