-- ===== src/Tests/Jwks.antt =====
-- A rotation of the signing keys on a concrete state.
use fastauth.Prelude.{
  ◌+◌, ◌*◌, ◌<◌, arith, String, ◌≡◌, refl, true, none, some, List, [], ◌∷◌, ◌==◌, if◌then◌else◌,
}
use fastauth.Dict.{get, put}
use fastauth.Dict.Tables.{IsTable-nil, put-IsTable}
use fastauth.Domain.Enums.{JwtAlgorithm}
use fastauth.Domain.Errors.{ok}
use fastauth.Domain.Models.{JwksKey}
use fastauth.Memory.{Memory}
use fastauth.Memory.Invariant.Defs.{jwks_key_key}
use fastauth.Security.Jwks.{
  JwkTools, JwksRegistry, PublicJwk, is_active, rotate_now, as_jwks_json, public_entry,
}
use fastauth.Security.Jwks.Grace.{rotate_now-published}
use mathlib.Core.List.{Memᴰ}
use fastauth.Security.Jwks.Rotation.{row_after, rotate_now-rows}
use fastauth.Tests.Context.{with_account}
use fastauth.Runtime.World.{World}
use fastauth.Tests.Samples.{external, world}

-- A cipher that leaves the bytes as they are.
abbrev jwk_tools : JwkTools
jwk_tools = record {
  generate_key = λ kind n. record { public = "new public"; private = 4 ∷ [] };
  urandom = λ n. [];
  digest = λ secret. [];
  aes_encrypt = λ kek nonce plain. plain;
  aes_decrypt = λ kek nonce body. some body;
  loads = λ plain. some "private";
}

abbrev registry : JwksRegistry
registry = record {
  secret_key = "secret";
  alg = JwtAlgorithm.es256;
  rotation_interval_seconds = none;
  grace_period_seconds = 60;
  encrypt_private_keys = true;
  secret_key_rotation = [];
}

abbrev old_key : JwksKey
old_key = record {
  id = "old";
  kid = "old kid";
  alg = "ES256";
  public_key = "public";
  private_key_encrypted = 3 ∷ [];
  created_at = 1;
  expires_at = none;
  rotated_at = none;
}

abbrev with_old : Memory
with_old = record with_account { jwks_keys = ("old", old_key) ∷ [] }

rotate_now-rows_example :
    let (r, w') = rotate_now jwk_tools registry external (world with_old) in
    (fresh : JwksKey) × (r ≡ ok fresh)
    × (fresh.id ≡ "fresh")
    × (fresh.rotated_at ≡ none)
    × (fresh.alg ≡ "ES256")
    × ((k : String)
        → get w'.memory.jwks_keys k
          ≡ row_after registry
              (external.clock 1)
              (get with_old.jwks_keys k)
              (if fresh.id == k then some fresh else none))
unfolding get put fastauth.Domain.Enums.algorithm_value
rotate_now-rows_example =
    rotate_now-rows jwk_tools registry external (world with_old)
      (put-IsTable jwks_key_key [] old_key (IsTable-nil jwks_key_key)) refl

-- The state right after the rotation.
abbrev later : World
later = record (world with_old) {
  memory = (rotate_now jwk_tools registry external (world with_old)).1.memory;
  ticks = 2;
}

soon : external.clock 2 < external.clock 1 + registry.grace_period_seconds * 1000000
soon = ground arith

rotate_now-published_example :
    (document : List PublicJwk) × ((as_jwks_json jwk_tools registry external later).0 ≡ ok document)
    × Memᴰ (public_entry old_key) document
unfolding get put is_active fastauth.Domain.Enums.algorithm_value
rotate_now-published_example =
    rotate_now-published jwk_tools registry external "old" old_key (world with_old) later
      (put-IsTable jwks_key_key [] old_key (IsTable-nil jwks_key_key)) refl refl refl refl soon
