-- ===== src/Flows/Sessions.antt =====
-- src/fastauth/flows/sessions.py, over the database sessions.
pub mod Revocation
use fastauth.Prelude.{ℕ, String, Bool, Option, none, some, List, map, ◌==◌, is_text, first}
use fastauth.Domain.Models.{User, Session}
use fastauth.Domain.Errors.{Exec, pure, raise, ◌>>=◌, ◌>>◌, not_found}
use fastauth.Memory.Sessions.{list_sessions_for_user, delete_session, delete_sessions_for_user}
use fastauth.Runtime.World.{World, query, modify, update}
use fastauth.Security.RefreshTokens.{revoke_for_session, revoke_for_user_except_session}

-- A session without the hash of its token.
pub record SessionSummary : Type 0 where
  pub id : String
  pub user_id : String
  pub expires_at : ℕ
  pub ip_address : Option String
  pub user_agent : Option String
  pub created_at : ℕ
  pub updated_at : ℕ
  pub is_current : Bool

pub record RevokeSessionsResponse : Type 0 where
  pub revoked : ℕ
  pub revoked_sessions : ℕ
  pub revoked_refresh_tokens : ℕ

unfoldable pub summary : Option String → Session → SessionSummary
summary current_session_id s = record {
  id = s.id;
  user_id = s.user_id;
  expires_at = s.expires_at;
  ip_address = s.ip_address;
  user_agent = s.user_agent;
  created_at = s.created_at;
  updated_at = s.updated_at;
  is_current = is_text current_session_id s.id;
}

unfoldable pub list_sessions : User → Option String → Exec World (List SessionSummary)
list_sessions user current_session_id = do
  sessions ← query (list_sessions_for_user user.id)
  pure (map (summary current_session_id) sessions)

unfoldable pub revoke_target : Option Session → Exec World RevokeSessionsResponse
revoke_target none = raise (not_found "session")
revoke_target (some target) = do
  modify (delete_session target.id)
  revoked_refresh_tokens ← revoke_for_session target.id
  pure (record {
    revoked = 1;
    revoked_sessions = 1;
    revoked_refresh_tokens = revoked_refresh_tokens;
  })

unfoldable pub revoke_session : User → String → Exec World RevokeSessionsResponse
revoke_session user session_id = do
  sessions ← query (list_sessions_for_user user.id)
  revoke_target (first (λ s. s.id == session_id) sessions)

-- `revoke_all` of the session strategy is the adapter's deletion.
unfoldable pub revoke_other_sessions : User → Option String → Exec World RevokeSessionsResponse
revoke_other_sessions user current_session_id = do
  revoked_sessions ← update (delete_sessions_for_user user.id current_session_id)
  revoked_refresh_tokens ← revoke_for_user_except_session user.id current_session_id
  pure (record {
    revoked = revoked_sessions;
    revoked_sessions = revoked_sessions;
    revoked_refresh_tokens = revoked_refresh_tokens;
  })
