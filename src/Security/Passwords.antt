-- ===== src/Security/Passwords.antt =====
-- src/fastauth/security/passwords.py. Hashing is argon2's, and the encoding of a salt with a hash its
-- own: a parameter. The executor that runs it on a thread is not modelled.
use fastauth.Prelude.{ℕ, suc, String, Bool, ltb, if◌then◌else◌}
use fastauth.Domain.Errors.{Result, ok, err, Exec, password_too_short, invalid_request}
use fastauth.Runtime.World.{External, World}
use Prim.Native.String.{count}

-- The protocol; `hash` takes the salt that the engine draws.
pub record PasswordHasher : Type 0 where
  pub hash : String → String → String
  pub verify : String → String → Bool
  pub needs_rehash : String → Bool

-- The bounds of `PasswordOptions`.
pub record PasswordOptions : Type 0 where
  pub min_length : ℕ
  pub max_length : ℕ

-- `CredentialService.validate_password`: pydantic refuses what is longer than the maximum.
unfoldable pub validate_password : PasswordOptions → String → Result String
validate_password config value =
    if ltb (count value) config.min_length
    then err (password_too_short config.min_length)
    else if ltb config.max_length (count value)
    then err invalid_request
    else ok value

-- `BoundedPasswordHasher.hash`
unfoldable pub hash_password : External → PasswordHasher → String → Exec World String
hash_password external hasher plain w =
    (ok (hasher.hash (external.secret w.secrets) plain), record w { secrets = suc w.secrets })
