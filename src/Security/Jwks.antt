-- ===== src/Security/Jwks.antt =====
-- `JwksRegistry` of src/fastauth/security/jwt.py: the keys that sign session tokens. The generation of
-- keys, AES-GCM, SHA-256 on bytes and the JSON of a key are other libraries', and parameters. The field
-- `current_key`, which nothing reads, is the key that `ensure_key` and `create_key` return. Log lines are
-- left out.
pub mod Rotation
pub mod Grace
use fastauth.Prelude.{
  ℕ, suc, ◌+◌, ◌*◌, String, Bool, not, ◌&&◌, Option, none, some, List, [], ◌∷◌, ◌++◌, map, ◌==◌,
  is_some, ltb, leb, keep, take, drop, stamp_le, sort_by, if◌then◌else◌,
}
use fastauth.Domain.Enums.{JwtAlgorithm, algorithm_value}
use fastauth.Domain.Errors.{
  Result, ok, err, Exec, pure, raise, ◌>>=◌, ◌>>◌, value_error, jwks_decryption,
}
use fastauth.Domain.Models.{JwksKey}
use fastauth.Memory.JwksKeys.{create_jwks_key, list_jwks_keys, update_jwks_key}
use fastauth.Runtime.World.{External, World, utc_now, new_id, query, modify, attempt_call}

-- What the library is asked to generate.
pub data KeyKind : Type 0 where
  okp ec : String → KeyKind
  rsa : ℕ → KeyKind

-- A key as JSON: the public part, and the bytes of the private one.
pub record KeyPair : Type 0 where
  pub public : String
  pub private : List ℕ

-- The n-th key and the n-th nonce; a decryption whose tag does not match has no result, as has the JSON
-- of what is not an object.
pub record JwkTools : Type 0 where
  pub generate_key : KeyKind → ℕ → KeyPair
  pub urandom : ℕ → List ℕ
  pub digest : String → List ℕ
  pub aes_encrypt : List ℕ → List ℕ → List ℕ → List ℕ
  pub aes_decrypt : List ℕ → List ℕ → List ℕ → Option (List ℕ)
  pub loads : List ℕ → Option String

pub record JwksRegistry : Type 0 where
  pub secret_key : String
  pub alg : JwtAlgorithm
  pub rotation_interval_seconds : Option ℕ
  pub grace_period_seconds : ℕ
  pub encrypt_private_keys : Bool
  pub secret_key_rotation : List String

-- An entry of the published document: the public part, with these members set.
pub record PublicJwk : Type 0 where
  pub members : String
  pub kid : String
  pub alg : String

-- By (created_at, kid), the newest first.
unfoldable pub newer : JwksKey → JwksKey → Bool
newer a b = stamp_le b.created_at b.kid a.created_at a.kid

unfoldable pub key_kind : JwtAlgorithm → KeyKind
key_kind JwtAlgorithm.ed25519 = KeyKind.okp "Ed25519"
key_kind JwtAlgorithm.es256 = KeyKind.ec "P-256"
key_kind JwtAlgorithm.es512 = KeyKind.ec "P-521"
key_kind JwtAlgorithm.rs256 = KeyKind.rsa 2048
key_kind JwtAlgorithm.ps256 = KeyKind.rsa 2048

-- A key that signs, or whose grace period is not over.
unfoldable pub is_usable : ℕ → JwksKey → Bool
is_usable now key = elim key.rotated_at [
  | none ↦ Bool.true
  | some _ ↦ elim key.expires_at [ none ↦ Bool.false | some expires_at ↦ ltb now expires_at ]
]

unfoldable pub public_entry : JwksKey → PublicJwk
public_entry key = record { members = key.public_key; kid = key.kid; alg = key.alg }

module _ (tools : JwkTools) where
  unfoldable pub derive_kek : String → List ℕ
  derive_kek secret_key = tools.digest secret_key

  unfoldable pub encrypt_private_key : List ℕ → List ℕ → Exec World (List ℕ)
  encrypt_private_key plain kek w =
      let nonce = tools.urandom w.secrets in
      (ok (nonce ++ tools.aes_encrypt kek nonce plain), record w { secrets = suc w.secrets })

  unfoldable pub decrypt_private_key : List ℕ → List ℕ → Option (List ℕ)
  decrypt_private_key blob kek = tools.aes_decrypt kek (take 12 blob) (drop 12 blob)

  -- The first of the keys whose tag matches.
  unfoldable pub decrypt_with : List ℕ → List (List ℕ) → Option (List ℕ)
  decrypt_with blob [] = none
  decrypt_with blob (kek ∷ keks) =
      let later = decrypt_with blob keks in
      elim (decrypt_private_key blob kek) [ none ↦ later | some plain ↦ some plain ]

  unfoldable pub load : Option (List ℕ) → Result String
  load none = err jwks_decryption
  load (some plain) = elim (tools.loads plain) [
    | none ↦ err value_error
    | some private ↦ ok private
  ]

  module _ (registry : JwksRegistry) where
    unfoldable pub decryption_keks : List (List ℕ)
    decryption_keks = derive_kek registry.secret_key ∷ map derive_kek registry.secret_key_rotation

    unfoldable pub decrypt_private_jwk : JwksKey → Result String
    decrypt_private_jwk key =
        let blob = key.private_key_encrypted in
        if registry.encrypt_private_keys
        then load (decrypt_with blob decryption_keks)
        else load (some blob)

    unfoldable pub is_active : JwksKey → Bool
    is_active key = not (is_some key.rotated_at) && key.alg == algorithm_value registry.alg

    unfoldable pub retired : ℕ → JwksKey → JwksKey
    retired now key = record key {
      rotated_at = some now;
      expires_at = some (now + registry.grace_period_seconds * 1000000);
    }

    unfoldable pub protect : List ℕ → Exec World (List ℕ)
    protect private =
        if registry.encrypt_private_keys
        then encrypt_private_key private (derive_kek registry.secret_key)
        else pure private

    -- The randomness of a generated key is drawn with the secrets.
    unfoldable pub generate : Exec World KeyPair
    generate w = (
      ok (tools.generate_key (key_kind registry.alg) w.secrets),
      record w { secrets = suc w.secrets },
    )

    module _ (external : External) where
      unfoldable pub draw_kid : Exec World String
      draw_kid w = (ok (external.secret w.secrets), record w { secrets = suc w.secrets })

      unfoldable pub create_key : Exec World JwksKey
      create_key = do
        pair ← generate
        kid ← draw_kid
        private ← protect pair.private
        id ← new_id external
        now ← utc_now external
        let key : JwksKey = record {
          id = id;
          kid = kid;
          alg = algorithm_value registry.alg;
          public_key = pair.public;
          private_key_encrypted = private;
          created_at = now;
          expires_at = none;
          rotated_at = none;
        }
        modify (create_jwks_key key)
        pure key

      unfoldable pub retire : JwksKey → Exec World (Unit {0})
      retire candidate = do
        now ← utc_now external
        _ ← attempt_call (update_jwks_key (retired now candidate))
        pure tt

      -- A key that cannot be decrypted is retired, and the next one is tried.
      unfoldable pub probed : Result String → JwksKey → Exec World JwksKey → Exec World JwksKey
      probed (ok private) candidate others = pure candidate
      probed (err jwks_decryption) candidate others = retire candidate >> others
      probed (err e) candidate others = raise e

      unfoldable pub probe : List JwksKey → Exec World JwksKey
      probe [] = create_key
      probe (candidate ∷ candidates) =
          probed (decrypt_private_jwk candidate) candidate (probe candidates)

      unfoldable pub ensure_key : Exec World JwksKey
      ensure_key = do keys ← query list_jwks_keys; probe (sort_by newer (keep is_active keys))

      unfoldable pub retire_all : ℕ → List JwksKey → Exec World (Unit {0})
      retire_all now [] = pure tt
      retire_all now (key ∷ keys) =
          let others = retire_all now keys in
          if is_active key
          then attempt_call (update_jwks_key (retired now key)) >>= (λ _. others)
          else others

      unfoldable pub rotate_now : Exec World JwksKey
      rotate_now = do
        previous ← query list_jwks_keys
        replacement ← create_key
        now ← utc_now external
        retire_all now previous
        pure replacement

      unfoldable pub rotate_aged : ℕ → JwksKey → ℕ → Exec World (Option JwksKey)
      rotate_aged interval current now =
          if leb (current.created_at + interval * 1000000) now
          then rotate_now >>= (λ replacement. pure (some replacement))
          else pure none

      unfoldable pub rotate_due : Option ℕ → JwksKey → Exec World (Option JwksKey)
      rotate_due none current = pure none
      rotate_due (some interval) current = do
        now ← utc_now external
        rotate_aged interval current now

      unfoldable pub rotate_if_due : Exec World (Option JwksKey)
      rotate_if_due = do current ← ensure_key; rotate_due registry.rotation_interval_seconds current

      unfoldable pub as_jwks_json : Exec World (List PublicJwk)
      as_jwks_json = do
        keys ← query list_jwks_keys
        now ← utc_now external
        pure (map public_entry (keep (is_usable now) keys))
