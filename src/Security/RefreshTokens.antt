-- ===== src/Security/RefreshTokens.antt =====
-- `RefreshTokenService` of src/fastauth/security/refresh_tokens.py.
pub mod Reuse
pub mod Replay
pub mod Deadline
use fastauth.Prelude.{
  ℕ, ◌+◌, ◌*◌, min, String, Bool, false, not, Option, none, some, is_some, leb, if◌then◌else◌,
}
use fastauth.Domain.Events.{Client}
use fastauth.Domain.Models.{RefreshToken}
use fastauth.Domain.Errors.{
  Exec, pure, raise, ◌>>=◌, ◌>>◌, raise_if, token_invalid, token_expired, refresh_token_reuse,
}
use fastauth.Memory.RefreshTokens.{
  RevokedRefreshFamily, create_refresh_token, get_refresh_token_by_hash, rotate_refresh_token,
  delete_refresh_token_family, delete_refresh_tokens_for_user, delete_refresh_tokens_for_session,
}
use fastauth.Runtime.World.{
  External, World, TokenPair, utc_now, new_id, generate_pair, query, modify, update,
}

-- The fields of `RefreshTokenOptions`; `absolute_max_age` is in microseconds.
pub record RefreshTokenOptions : Type 0 where
  pub enabled : Bool
  pub max_age_seconds : ℕ
  pub absolute_max_age : Option ℕ

unfoldable pub expiry_for : RefreshTokenOptions → ℕ → ℕ → ℕ
expiry_for config now family_created_at =
    let next_expiry = now + config.max_age_seconds * 1000000 in
    elim config.absolute_max_age [
      | none ↦ next_expiry
      | some age ↦ min next_expiry (family_created_at + age)
    ]

-- The absolute deadline of a family has come.
unfoldable pub family_over : RefreshTokenOptions → RefreshToken → ℕ → Bool
family_over config existing now = elim config.absolute_max_age [
  | none ↦ false
  | some age ↦ leb (existing.family_created_at + age) now
]

-- `family_id or token_id` and `expires_at or self.expiry_for(...)`
unfoldable pub or_else : {A : Type 0} → Option A → A → A
or_else none a = a
or_else (some b) a = b

unfoldable pub revoke_family : String → Exec World RevokedRefreshFamily
revoke_family family_id = update (delete_refresh_token_family family_id)

module _ (external : External) (config : RefreshTokenOptions) where
  unfoldable pub persist :
      TokenPair
      → String
      → String
      → Option String
      → Option ℕ
      → Option ℕ
      → Client
      → Option ℕ
      → Exec World (RefreshToken × String)
  persist pair user_id session_id family_id family_created_at authenticated_at client expires_at =
      do
        now ← utc_now external
        token_id ← new_id external
        let chain_created_at = or_else family_created_at now
        created_at ← utc_now external
        updated_at ← utc_now external
        let row : RefreshToken = record {
          id = token_id;
          user_id = user_id;
          session_id = session_id;
          token_hash = pair.hashed;
          family_id = or_else family_id token_id;
          family_created_at = chain_created_at;
          expires_at = or_else expires_at (expiry_for config now chain_created_at);
          authenticated_at = authenticated_at;
          consumed_at = none;
          replaced_by = none;
          ip_address = client.ip_address;
          user_agent = client.user_agent;
          created_at = created_at;
          updated_at = updated_at;
        }
        modify (create_refresh_token row)
        pure (row, pair.plain)

  unfoldable pub issue_new :
      String → String → Option ℕ → Client → Exec World (Option (RefreshToken × String))
  issue_new user_id session_id authenticated_at client = do
    pair ← generate_pair external
    issued ← persist pair user_id session_id none none authenticated_at client none
    pure (some issued)

  unfoldable pub issue :
      String → String → Option ℕ → Client → Exec World (Option (RefreshToken × String))
  issue user_id session_id authenticated_at client =
      if not config.enabled then pure none else issue_new user_id session_id authenticated_at client

  -- The check on the absolute deadline.
  unfoldable pub within_family : RefreshToken → ℕ → Exec World RefreshToken
  within_family existing now =
      if family_over config existing now
      then revoke_family existing.family_id >> raise token_expired
      else pure existing

  -- The checks on a row that is not consumed.
  unfoldable pub unexpired : RefreshToken → Exec World RefreshToken
  unexpired existing = do
    now ← utc_now external
    raise_if (leb existing.expires_at now) token_expired
    within_family existing now

  -- The checks on the row that a presented token names.
  unfoldable pub validate : Option RefreshToken → Exec World RefreshToken
  validate none = raise token_invalid
  validate (some existing) =
      if is_some existing.consumed_at
      then revoke_family existing.family_id >> raise refresh_token_reuse
      else unexpired existing

  unfoldable pub get_valid : String → Exec World RefreshToken
  get_valid plain_token = do
    raise_if (not config.enabled) token_invalid
    existing ← query (get_refresh_token_by_hash (external.sha256 plain_token))
    validate existing

  -- A lost race is a reuse.
  unfoldable pub finish_rotation :
      String → String → Option RefreshToken → Exec World (RefreshToken × String)
  finish_rotation family_id plain none = revoke_family family_id >> raise refresh_token_reuse
  finish_rotation family_id plain (some rotated) = pure (rotated, plain)

  unfoldable pub rotate : String → String → Client → Exec World (RefreshToken × String)
  rotate plain_token session_id client = do
    existing ← get_valid plain_token
    new_pair ← generate_pair external
    token_id ← new_id external
    now ← utc_now external
    created_at ← utc_now external
    updated_at ← utc_now external
    let new_record : RefreshToken = record {
      id = token_id;
      user_id = existing.user_id;
      session_id = session_id;
      token_hash = new_pair.hashed;
      family_id = existing.family_id;
      family_created_at = existing.family_created_at;
      expires_at = expiry_for config now existing.family_created_at;
      authenticated_at = existing.authenticated_at;
      consumed_at = none;
      replaced_by = none;
      ip_address = client.ip_address;
      user_agent = client.user_agent;
      created_at = created_at;
      updated_at = updated_at;
    }
    -- The adapter's own reading of the clock.
    written ← utc_now external
    rotated ← update (rotate_refresh_token written existing.id new_record now)
    finish_rotation existing.family_id new_pair.plain rotated

unfoldable pub revoke_for_user : String → Exec World ℕ
revoke_for_user user_id = update (delete_refresh_tokens_for_user user_id none)

unfoldable pub revoke_for_user_except_session : String → Option String → Exec World ℕ
revoke_for_user_except_session user_id session_id =
    update (delete_refresh_tokens_for_user user_id session_id)

unfoldable pub revoke_for_session : String → Exec World ℕ
revoke_for_session session_id = update (delete_refresh_tokens_for_session session_id)
