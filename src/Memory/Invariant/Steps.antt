-- ===== src/Memory/Invariant/Steps.antt =====
-- The invariant under each method, and under any calls.
use fastauth.Prelude.{String, Bool, List, [], ◌∷◌, arith}
use fastauth.Dict.{keys_where, remove_all}
use fastauth.Dict.Tables.{put-IsTable, remove-IsTable, remove_all-IsTable}
use fastauth.Domain.Models.{RefreshToken}
use fastauth.Memory.State.{Memory}
use fastauth.Memory.Ops.{Op, step, run}
use fastauth.Memory.Users.{create_user, update_user, delete_user, set_user_active}
use fastauth.Memory.Sessions.{
  create_session, update_session, delete_session, delete_sessions_for_user, delete_expired_sessions,
}
use fastauth.Memory.RefreshTokens.{
  create_refresh_token, update_refresh_token, rotate_refresh_token, delete_refresh_token,
  delete_refresh_tokens_for_user, delete_refresh_tokens_for_session, delete_refresh_token_family,
  delete_expired_refresh_tokens, revoke_where,
}
use fastauth.Memory.Accounts.{
  create_account, update_account, replace_account_password, delete_account,
}
use fastauth.Memory.Verifications.{
  is_challenge, create_verification, attempt_verification, update_verification, delete_verification,
  delete_verifications_for_identifier, delete_expired_verifications,
}
use fastauth.Memory.ApiKeys.{
  create_api_key, update_api_key, delete_api_key, delete_expired_api_keys,
}
use fastauth.Memory.JwksKeys.{create_jwks_key, update_jwks_key, delete_jwks_key}
use fastauth.Memory.AuditLogs.{create_audit_log, delete_audit_logs_before}
use fastauth.Memory.RateLimits.{
  increment_rate_limit, upsert_rate_limit, rekey_rate_limit, active_pair, delete_rate_limit,
}
use fastauth.Memory.Invariant.Defs.{
  IsWellFormed, user_key, session_key, account_key, verification_key, api_key_key, jwks_key_key,
  refresh_token_key,
}
use fastauth.Memory.Invariant.Rows.{
  set_user_active-IsTable, replace_account_password-IsTable, rotate_refresh_token-IsTable,
  pop_sessions-IsTable, attempt_verification-IsTable, update_user-IsTable,
  increment_rate_limit-IsTable, upsert_rate_limit-IsTable, rekey_buckets-IsTable,
}

ruleset table_rules = (remove_all-IsTable, remove-IsTable, put-IsTable, pop_sessions-IsTable)

revoke_where-IsWellFormed :
    (p : RefreshToken → Bool) (m : Memory) → IsWellFormed m → IsWellFormed (revoke_where p m).1
unfolding revoke_where
revoke_where-IsWellFormed p m w = search table_rules

delete_user-IsWellFormed :
    (user_id : String) (m : Memory) → IsWellFormed m → IsWellFormed (delete_user user_id m)
unfolding delete_user
delete_user-IsWellFormed user_id m w = search table_rules

-- One call of one method.
pub step-IsWellFormed : (op : Op) (m : Memory) → IsWellFormed m → IsWellFormed (step op m)
unfolding step
step-IsWellFormed (Op.create_user user) m w =
    unfold create_user in ground (arith, put-IsTable user_key m.users user w.users)
step-IsWellFormed (Op.update_user now user) m w =
    unfold update_user in ground (arith, update_user-IsTable now user m w.users)
step-IsWellFormed (Op.set_user_active now user_id active) m w =
    unfold set_user_active in ground (arith, set_user_active-IsTable now user_id active m w.users)
step-IsWellFormed (Op.delete_user user_id) m w = delete_user-IsWellFormed user_id m w
step-IsWellFormed (Op.create_session session) m w =
    unfold create_session in ground (arith, put-IsTable session_key m.sessions session w.sessions)
step-IsWellFormed (Op.update_session now session) m w =
    unfold update_session in
    ground
      (arith, put-IsTable session_key m.sessions (record session { updated_at = now }) w.sessions)
step-IsWellFormed (Op.delete_session session_id) m w = unfold delete_session in search table_rules
step-IsWellFormed (Op.delete_sessions_for_user user_id except) m w =
    unfold delete_sessions_for_user in search table_rules
step-IsWellFormed (Op.delete_expired_sessions cutoff limit) m w =
    unfold delete_expired_sessions in search table_rules
step-IsWellFormed (Op.create_refresh_token token) m w =
    unfold create_refresh_token in
    ground (arith, put-IsTable refresh_token_key m.refresh_tokens token w.refresh_tokens)
step-IsWellFormed (Op.update_refresh_token now token) m w =
    unfold update_refresh_token in
    ground (
      arith,
      put-IsTable refresh_token_key m.refresh_tokens (record token { updated_at = now })
          w.refresh_tokens,
    )
step-IsWellFormed (Op.rotate_refresh_token now current new_token consumed_at) m w =
    unfold rotate_refresh_token in
    ground
      (arith, rotate_refresh_token-IsTable now current new_token consumed_at m w.refresh_tokens)
step-IsWellFormed (Op.delete_refresh_token token_id) m w =
    unfold delete_refresh_token in search table_rules
step-IsWellFormed (Op.delete_refresh_tokens_for_user user_id except) m w =
    unfold delete_refresh_tokens_for_user in revoke_where-IsWellFormed _ m w
step-IsWellFormed (Op.delete_refresh_tokens_for_session session_id) m w =
    unfold delete_refresh_tokens_for_session in revoke_where-IsWellFormed _ m w
step-IsWellFormed (Op.delete_refresh_token_family family_id) m w =
    unfold delete_refresh_token_family in revoke_where-IsWellFormed _ m w
step-IsWellFormed (Op.delete_expired_refresh_tokens cutoff limit) m w =
    unfold delete_expired_refresh_tokens in search table_rules
step-IsWellFormed (Op.create_account account) m w =
    unfold create_account in ground (arith, put-IsTable account_key m.accounts account w.accounts)
step-IsWellFormed (Op.update_account now account) m w =
    unfold update_account in
    ground
      (arith, put-IsTable account_key m.accounts (record account { updated_at = now }) w.accounts)
step-IsWellFormed (Op.replace_account_password now account_id expected_hash new_hash) m w =
    unfold replace_account_password in
    ground
      (arith, replace_account_password-IsTable now account_id expected_hash new_hash m w.accounts)
step-IsWellFormed (Op.delete_account account_id) m w = unfold delete_account in search table_rules
step-IsWellFormed (Op.create_verification verification) m w =
    unfold create_verification in
    ground (
      arith,
      put-IsTable verification_key
          (remove_all
            (keys_where (is_challenge verification.identifier verification.purpose) m.verifications)
            m.verifications)
          verification (remove_all-IsTable verification_key _ m.verifications w.verifications),
    )
step-IsWellFormed (Op.attempt_verification identifier purpose value_hash now max_attempts consume) m
      w =
    unfold attempt_verification in
    ground (
      arith,
      attempt_verification-IsTable identifier purpose value_hash now max_attempts consume m
          w.verifications,
    )
step-IsWellFormed (Op.update_verification now verification) m w =
    unfold update_verification in
    ground (
      arith,
      put-IsTable verification_key m.verifications (record verification { updated_at = now })
          w.verifications,
    )
step-IsWellFormed (Op.delete_verification verification_id) m w =
    unfold delete_verification in search table_rules
step-IsWellFormed (Op.delete_verifications_for_identifier identifier purpose) m w =
    unfold delete_verifications_for_identifier in search table_rules
step-IsWellFormed (Op.delete_expired_verifications cutoff limit) m w =
    unfold delete_expired_verifications in search table_rules
step-IsWellFormed (Op.create_api_key api_key) m w =
    unfold create_api_key in ground (arith, put-IsTable api_key_key m.api_keys api_key w.api_keys)
step-IsWellFormed (Op.update_api_key now api_key) m w =
    unfold update_api_key in
    ground
      (arith, put-IsTable api_key_key m.api_keys (record api_key { updated_at = now }) w.api_keys)
step-IsWellFormed (Op.delete_api_key api_key_id) m w = unfold delete_api_key in search table_rules
step-IsWellFormed (Op.delete_expired_api_keys cutoff limit) m w =
    unfold delete_expired_api_keys in search table_rules
step-IsWellFormed (Op.create_jwks_key key) m w =
    unfold create_jwks_key in ground (arith, put-IsTable jwks_key_key m.jwks_keys key w.jwks_keys)
step-IsWellFormed (Op.update_jwks_key key) m w =
    unfold update_jwks_key in ground (arith, put-IsTable jwks_key_key m.jwks_keys key w.jwks_keys)
step-IsWellFormed (Op.delete_jwks_key key_id) m w = unfold delete_jwks_key in search table_rules
step-IsWellFormed (Op.create_audit_log row) m w = unfold create_audit_log in assumption w
step-IsWellFormed (Op.delete_audit_logs_before cutoff limit) m w =
    unfold delete_audit_logs_before in assumption w
step-IsWellFormed (Op.increment_rate_limit new_id key window_ms now_ms) m w =
    unfold increment_rate_limit in
    ground (arith, increment_rate_limit-IsTable new_id key window_ms now_ms m w.rate_limits)
step-IsWellFormed (Op.upsert_rate_limit rate_limit) m w =
    unfold upsert_rate_limit in ground (arith, upsert_rate_limit-IsTable rate_limit m w.rate_limits)
step-IsWellFormed (Op.rekey_rate_limit new_id old_key new_key window_ms now_ms) m w =
    unfold rekey_rate_limit in
    ground (
      arith,
      rekey_buckets-IsTable new_id old_key new_key
          (active_pair window_ms now_ms old_key new_key m.rate_limits) m.rate_limits w.rate_limits,
    )
step-IsWellFormed (Op.delete_rate_limit key) m w = unfold delete_rate_limit in search table_rules

-- Any calls from a well-formed state.
pub run-IsWellFormed : (ops : List Op) (m : Memory) → IsWellFormed m → IsWellFormed (run ops m)
unfolding run
run-IsWellFormed [] m w = w
run-IsWellFormed (op ∷ ops) m w = run-IsWellFormed ops (step op m) (step-IsWellFormed op m w)
