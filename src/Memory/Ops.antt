-- ===== src/Memory/Ops.antt =====
-- The methods of `InMemoryAdapter` that change a table, as the steps that a client can take in any
-- order. A step forgets what the method returns or raises.
use fastauth.Prelude.{ℕ, String, Bool, Option, List, [], ◌∷◌}
use fastauth.Domain.Enums.{VerificationPurpose}
use fastauth.Domain.Models.{
  User, Session, Account, Verification, ApiKey, JwksKey, AuditLog, RateLimit, RefreshToken,
}
use fastauth.Memory.State.{Memory}
use fastauth.Memory.Users
use fastauth.Memory.Sessions
use fastauth.Memory.RefreshTokens
use fastauth.Memory.Accounts
use fastauth.Memory.Verifications
use fastauth.Memory.ApiKeys
use fastauth.Memory.JwksKeys
use fastauth.Memory.AuditLogs
use fastauth.Memory.RateLimits

pub data Op : Type 0 where
  create_user : User → Op
  update_user : ℕ → User → Op
  set_user_active : ℕ → String → Bool → Op
  delete_user : String → Op
  create_session : Session → Op
  update_session : ℕ → Session → Op
  delete_session : String → Op
  delete_sessions_for_user : String → Option String → Op
  delete_expired_sessions : ℕ → ℕ → Op
  create_refresh_token : RefreshToken → Op
  update_refresh_token : ℕ → RefreshToken → Op
  rotate_refresh_token : ℕ → String → RefreshToken → ℕ → Op
  delete_refresh_token : String → Op
  delete_refresh_tokens_for_user : String → Option String → Op
  delete_refresh_tokens_for_session : String → Op
  delete_refresh_token_family : String → Op
  delete_expired_refresh_tokens : ℕ → ℕ → Op
  create_account : Account → Op
  update_account : ℕ → Account → Op
  replace_account_password : ℕ → String → String → String → Op
  delete_account : String → Op
  create_verification : Verification → Op
  attempt_verification : String → VerificationPurpose → String → ℕ → Option ℕ → Bool → Op
  update_verification : ℕ → Verification → Op
  delete_verification : String → Op
  delete_verifications_for_identifier : String → VerificationPurpose → Op
  delete_expired_verifications : ℕ → ℕ → Op
  create_api_key : ApiKey → Op
  update_api_key : ℕ → ApiKey → Op
  delete_api_key : String → Op
  delete_expired_api_keys : ℕ → ℕ → Op
  create_jwks_key : JwksKey → Op
  update_jwks_key : JwksKey → Op
  delete_jwks_key : String → Op
  create_audit_log : AuditLog → Op
  delete_audit_logs_before : ℕ → ℕ → Op
  increment_rate_limit : String → String → ℕ → ℕ → Op
  upsert_rate_limit : RateLimit → Op
  rekey_rate_limit : String → String → String → ℕ → ℕ → Op
  delete_rate_limit : String → Op

unfoldable pub step : Op → Memory → Memory
step (Op.create_user user) m = (Users.create_user user m).1
step (Op.update_user now user) m = (Users.update_user now user m).1
step (Op.set_user_active now user_id active) m = (Users.set_user_active now user_id active m).1
step (Op.delete_user user_id) m = Users.delete_user user_id m
step (Op.create_session session) m = Sessions.create_session session m
step (Op.update_session now session) m = (Sessions.update_session now session m).1
step (Op.delete_session session_id) m = Sessions.delete_session session_id m
step (Op.delete_sessions_for_user user_id except) m =
    (Sessions.delete_sessions_for_user user_id except m).1
step (Op.delete_expired_sessions cutoff limit) m =
    (Sessions.delete_expired_sessions cutoff limit m).1
step (Op.create_refresh_token token) m = RefreshTokens.create_refresh_token token m
step (Op.update_refresh_token now token) m = (RefreshTokens.update_refresh_token now token m).1
step (Op.rotate_refresh_token now current new_token consumed_at) m =
    (RefreshTokens.rotate_refresh_token now current new_token consumed_at m).1
step (Op.delete_refresh_token token_id) m = RefreshTokens.delete_refresh_token token_id m
step (Op.delete_refresh_tokens_for_user user_id except) m =
    (RefreshTokens.delete_refresh_tokens_for_user user_id except m).1
step (Op.delete_refresh_tokens_for_session session_id) m =
    (RefreshTokens.delete_refresh_tokens_for_session session_id m).1
step (Op.delete_refresh_token_family family_id) m =
    (RefreshTokens.delete_refresh_token_family family_id m).1
step (Op.delete_expired_refresh_tokens cutoff limit) m =
    (RefreshTokens.delete_expired_refresh_tokens cutoff limit m).1
step (Op.create_account account) m = Accounts.create_account account m
step (Op.update_account now account) m = (Accounts.update_account now account m).1
step (Op.replace_account_password now account_id expected_hash new_hash) m =
    (Accounts.replace_account_password now account_id expected_hash new_hash m).1
step (Op.delete_account account_id) m = Accounts.delete_account account_id m
step (Op.create_verification verification) m = Verifications.create_verification verification m
step (Op.attempt_verification identifier purpose value_hash now max_attempts consume) m =
    (Verifications.attempt_verification identifier purpose value_hash now max_attempts consume m).1
step (Op.update_verification now verification) m =
    (Verifications.update_verification now verification m).1
step (Op.delete_verification verification_id) m =
    Verifications.delete_verification verification_id m
step (Op.delete_verifications_for_identifier identifier purpose) m =
    (Verifications.delete_verifications_for_identifier identifier purpose m).1
step (Op.delete_expired_verifications cutoff limit) m =
    (Verifications.delete_expired_verifications cutoff limit m).1
step (Op.create_api_key api_key) m = ApiKeys.create_api_key api_key m
step (Op.update_api_key now api_key) m = (ApiKeys.update_api_key now api_key m).1
step (Op.delete_api_key api_key_id) m = ApiKeys.delete_api_key api_key_id m
step (Op.delete_expired_api_keys cutoff limit) m =
    (ApiKeys.delete_expired_api_keys cutoff limit m).1
step (Op.create_jwks_key key) m = JwksKeys.create_jwks_key key m
step (Op.update_jwks_key key) m = (JwksKeys.update_jwks_key key m).1
step (Op.delete_jwks_key key_id) m = JwksKeys.delete_jwks_key key_id m
step (Op.create_audit_log row) m = AuditLogs.create_audit_log row m
step (Op.delete_audit_logs_before cutoff limit) m =
    (AuditLogs.delete_audit_logs_before cutoff limit m).1
step (Op.increment_rate_limit new_id key window_ms now_ms) m =
    (RateLimits.increment_rate_limit new_id key window_ms now_ms m).1
step (Op.upsert_rate_limit rate_limit) m = (RateLimits.upsert_rate_limit rate_limit m).1
step (Op.rekey_rate_limit new_id old_key new_key window_ms now_ms) m =
    RateLimits.rekey_rate_limit new_id old_key new_key window_ms now_ms m
step (Op.delete_rate_limit key) m = RateLimits.delete_rate_limit key m

-- Any calls, one after the other.
unfoldable pub run : List Op → Memory → Memory
run [] m = m
run (op ∷ ops) m = run ops (step op m)
