-- ===== src/Security/RateLimit/Shared.antt =====
-- The storage that src/fastauth/runtime/auth.py chooses for the rate limiter and the lockout tracker,
-- run on the state of the services.

use fastauth.Dict.{Dict}
use fastauth.Domain.Models.{RateLimit}
use fastauth.Memory.{Memory}
use fastauth.Runtime.World.{World}
use fastauth.Security.Buckets.{RateLimitStorage}
use fastauth.Security.RateLimit.Storage.{memory_storage, database_storage}

pub data RateLimitStorageKind : Type 0 where
  memory database : RateLimitStorageKind

-- A storage of a part of the state.
abbrev pub within : {S T : Type 0} → (S → T) → (S → T → S) → RateLimitStorage T → RateLimitStorage S
within part replace store = record {
  increment = λ new_id key window_ms now_ms s.
      let (bucket, t) = store.increment new_id key window_ms now_ms (part s) in
      (bucket, replace s t);
  get = λ key s. store.get key (part s);
  upsert = λ row s. let (stored, t) = store.upsert row (part s) in (stored, replace s t);
  rekey = λ new_id old_key new_key window_ms now_ms s.
      replace s (store.rekey new_id old_key new_key window_ms now_ms (part s));
  delete = λ key s. replace s (store.delete key (part s));
}

abbrev with_buckets : World → Dict RateLimit → World
with_buckets w buckets = record w { buckets = buckets }

abbrev with_memory : World → Memory → World
with_memory w m = record w { memory = m }

abbrev pub rate_storage : RateLimitStorageKind → RateLimitStorage World
rate_storage RateLimitStorageKind.memory = within (λ w. w.buckets) with_buckets memory_storage
rate_storage RateLimitStorageKind.database = within (λ w. w.memory) with_memory database_storage
