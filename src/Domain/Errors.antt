-- ===== src/Domain/Errors.antt =====
-- src/fastauth/exceptions.py: one constructor for each class that the modelled code raises, with
-- the data that a caller can read, and the result of a call that may raise. Message texts are left
-- out. `value_error` is Python's own `ValueError`.
pub mod Peel
use fastauth.Prelude.{ℕ, String, Bool, true, false}

pub data FastAuthError : Type 0 where
  not_found : String → FastAuthError
  duplicate : String → String → FastAuthError
  invalid_credentials policy_denied email_not_verified invalid_request config_error : FastAuthError
  feature_not_enabled : String → FastAuthError
  account_locked rate_limited : ℕ → FastAuthError
  token_invalid token_expired refresh_token_reuse refresh_session_consistency : FastAuthError
  password_too_short : ℕ → FastAuthError
  password_already_set maintenance_invalid_delete_count : FastAuthError
  maintenance_cleanup_failed : String → FastAuthError
  value_error jwks_decryption : FastAuthError

pub data Result {ℓ} (A : Type ℓ) : Type ℓ where
  ok : A → Result A
  err : FastAuthError → Result A

-- A call on a state that may raise. What was written before the raise stays written.
abbrev pub Exec {ℓ} : Type ℓ → Type ℓ → Type ℓ
Exec S A = S → Result A × S

module _ {ℓ} {S A : Type ℓ} where
  abbrev pub pure : A → Exec S A
  pure a s = (ok a, s)

  abbrev pub raise : FastAuthError → Exec S A
  raise e s = (err e, s)

abbrev pub continue {ℓ} : {S A B : Type ℓ} → (A → Exec S B) → Result A × S → Result B × S
continue f (ok a, s) = f a s
continue f (err e, s) = (err e, s)

infixl 5 ◌>>=◌ ◌>>◌
abbrev pub ◌>>=◌ {ℓ} : {S A B : Type ℓ} → Exec S A → (A → Exec S B) → Exec S B
◌>>=◌ m f s = continue f (m s)

abbrev pub ◌>>◌ {ℓ} : {S A B : Type ℓ} → Exec S A → Exec S B → Exec S B
m >> k = m >>= λ _. k

-- `if b: raise e`
abbrev pub raise_if : {S : Type 0} → Bool → FastAuthError → Exec S (Unit {0})
raise_if true e s = (err e, s)
raise_if false e s = (ok tt, s)

-- A call that touches no state.
abbrev pub returned {ℓ} : {S A : Type ℓ} → Result A → Exec S A
returned r s = (r, s)
