-- ===== src/Memory/Users/Reachable.antt =====
-- Usernames of the stored users under any calls of the adapter.
use fastauth.Prelude.{◌≡◌, refl, sym, subst, List, [], ◌∷◌, arith, Bool, true, false}
use fastauth.Memory.State.{Memory}
use fastauth.Memory.Ops.{Op, step, run}
use fastauth.Memory.Invariant.Defs.{IsWellFormed}
use fastauth.Memory.Invariant.Steps.{step-IsWellFormed}
use fastauth.Memory.Users.Unique.{
  HasUniqueUsernames, create_user-HasUniqueUsernames, update_user-HasUniqueUsernames,
  set_user_active-HasUniqueUsernames, delete_user-HasUniqueUsernames,
}
use fastauth.Memory.Sessions.{
  create_session, update_session, delete_session, delete_sessions_for_user, delete_expired_sessions,
}
use fastauth.Memory.RefreshTokens.{
  create_refresh_token, update_refresh_token, rotate_refresh_token, delete_refresh_token,
  delete_refresh_tokens_for_user, delete_refresh_tokens_for_session, delete_refresh_token_family,
  delete_expired_refresh_tokens, revoke_where,
}
use fastauth.Memory.Accounts.{
  create_account, update_account, replace_account_password, delete_account,
}
use fastauth.Memory.Verifications.{
  create_verification, attempt_verification, update_verification, delete_verification,
  delete_verifications_for_identifier, delete_expired_verifications, write_back,
}
use fastauth.Memory.ApiKeys.{
  create_api_key, update_api_key, delete_api_key, delete_expired_api_keys,
}
use fastauth.Memory.JwksKeys.{create_jwks_key, update_jwks_key, delete_jwks_key}
use fastauth.Memory.AuditLogs.{create_audit_log, delete_audit_logs_before}
use fastauth.Memory.RateLimits.{
  increment_rate_limit, upsert_rate_limit, rekey_rate_limit, delete_rate_limit,
}

abbrev writes_users : Op → Bool
writes_users (Op.create_user user) = true
writes_users (Op.update_user now user) = true
writes_users (Op.set_user_active now user_id active) = true
writes_users (Op.delete_user user_id) = true
writes_users _ = false

users-step : (op : Op) (m : Memory) → writes_users op ≡ false → (step op m).users ≡ m.users
unfolding step create_session update_session delete_session delete_sessions_for_user
    delete_expired_sessions create_refresh_token update_refresh_token rotate_refresh_token
    delete_refresh_token delete_refresh_tokens_for_user delete_refresh_tokens_for_session
    delete_refresh_token_family delete_expired_refresh_tokens revoke_where create_account
    update_account replace_account_password delete_account create_verification attempt_verification
    update_verification delete_verification delete_verifications_for_identifier
    delete_expired_verifications write_back create_api_key update_api_key delete_api_key
    delete_expired_api_keys create_jwks_key update_jwks_key delete_jwks_key create_audit_log
    delete_audit_logs_before increment_rate_limit upsert_rate_limit rekey_rate_limit
    delete_rate_limit
users-step (Op.create_user user) m h = cc
users-step _ m h = ground arith

step-HasUniqueUsernames :
    (op : Op) (m : Memory)
    → IsWellFormed m
    → HasUniqueUsernames m.users
    → HasUniqueUsernames (step op m).users
unfolding step
step-HasUniqueUsernames (Op.create_user user) m w h = create_user-HasUniqueUsernames user m h
step-HasUniqueUsernames (Op.update_user now user) m w h =
    update_user-HasUniqueUsernames now user m w.users h
step-HasUniqueUsernames (Op.set_user_active now user_id active) m w h =
    set_user_active-HasUniqueUsernames now user_id active m h
step-HasUniqueUsernames (Op.delete_user user_id) m w h = delete_user-HasUniqueUsernames user_id m h
step-HasUniqueUsernames op m w h = subst HasUniqueUsernames (sym (users-step op m refl)) h

-- From a well-formed state in which no two users share a username, any calls of the adapter's
-- methods lead to a state with both properties.
pub run-HasUniqueUsernames :
    (ops : List Op) (m : Memory)
    → IsWellFormed m
    → HasUniqueUsernames m.users
    → IsWellFormed (run ops m) × HasUniqueUsernames (run ops m).users
unfolding run
run-HasUniqueUsernames [] m w h = (w, h)
run-HasUniqueUsernames (op ∷ ops) m w h =
    run-HasUniqueUsernames ops (step op m) (step-IsWellFormed op m w)
      (step-HasUniqueUsernames op m w h)
