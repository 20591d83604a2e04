-- ===== src/Security/Sessions.antt =====
-- `DatabaseSessionStrategy` of src/fastauth/security/sessions.py.
pub mod Reading
use fastauth.Prelude.{ℕ, ◌+◌, ◌*◌, String, Bool, false, Option, none, some, leb, if◌then◌else◌}
use fastauth.Domain.Models.{User, Session}
use fastauth.Domain.Errors.{Exec, pure, ◌>>=◌, ◌>>◌}
use fastauth.Memory.Users.{get_user_by_id}
use fastauth.Memory.Sessions.{
  create_session, get_session_by_token_hash, update_session, delete_session,
  delete_sessions_for_user,
}
use fastauth.Runtime.World.{
  External, World, utc_now, new_id, generate_pair, query, modify, update, attempt_call,
}
use fastauth.Domain.Events.{Client}

-- The fields of `SessionOptions` that the strategy and the policy read.
pub record SessionOptions : Type 0 where
  pub require_verified_user : Bool
  pub max_age_seconds : ℕ
  pub idle_timeout_seconds : Option ℕ

pub record SessionContext : Type 0 where
  pub user : User
  pub session : Session
  pub token : String

module _ (external : External) (config : SessionOptions) where
  -- The session id of the renewed session is not used: each one gets a row of its own.
  unfoldable pub renew : User → Option ℕ → Client → Exec World SessionContext
  renew user authenticated_at client = do
    pair ← generate_pair external
    id ← new_id external
    now ← utc_now external
    created_at ← utc_now external
    updated_at ← utc_now external
    let session : Session = record {
      authenticated_at = authenticated_at;
      id = id;
      user_id = user.id;
      token_hash = pair.hashed;
      expires_at = now + config.max_age_seconds * 1000000;
      ip_address = client.ip_address;
      user_agent = client.user_agent;
      created_at = created_at;
      updated_at = updated_at;
    }
    modify (create_session session)
    pure (record { user = user; session = session; token = pair.plain })

  unfoldable pub create : User → Client → Exec World SessionContext
  create user client = do now ← utc_now external; renew user (some now) client

  unfoldable pub with_user : String → Session → Option User → Exec World (Option SessionContext)
  with_user token session none = pure none
  with_user token session (some user) =
      pure (some (record { user = user; session = session; token = token }))

  unfoldable pub finish_read : String → Session → Exec World (Option SessionContext)
  finish_read token session = do
    user ← query (get_user_by_id session.user_id)
    with_user token session user

  -- The session is used: the idle timeout starts anew.
  unfoldable pub touch : String → Session → ℕ → Exec World (Option SessionContext)
  touch token session now = do
    written ← utc_now external
    updated ← attempt_call (update_session written (record session { updated_at = now }))
    finish_read token updated

  unfoldable pub drop_idle : Session → Exec World (Option SessionContext)
  drop_idle session = modify (delete_session session.id) >> pure none

  -- The rest of a read, under the configured idle timeout.
  unfoldable pub read_live : Option ℕ → String → Session → ℕ → Exec World (Option SessionContext)
  read_live none token session now = finish_read token session
  read_live (some idle) token session now =
      if leb (session.updated_at + idle * 1000000) now
      then drop_idle session
      else touch token session now

  unfoldable pub read_found : String → Option Session → ℕ → Exec World (Option SessionContext)
  read_found token none now = pure none
  read_found token (some session) now =
      if leb session.expires_at now
      then pure none
      else read_live config.idle_timeout_seconds token session now

  unfoldable pub read : String → Exec World (Option SessionContext)
  read token = do
    session ← query (get_session_by_token_hash (external.sha256 token))
    now ← utc_now external
    read_found token session now

  unfoldable pub revoke_found : Option Session → Exec World (Unit {0})
  revoke_found none = pure tt
  revoke_found (some session) = modify (delete_session session.id)

  unfoldable pub revoke : String → Exec World (Unit {0})
  revoke token = do
    session ← query (get_session_by_token_hash (external.sha256 token))
    revoke_found session

  unfoldable pub revoke_all : String → Option String → Exec World ℕ
  revoke_all user_id except_session_id = update (delete_sessions_for_user user_id except_session_id)

  unfoldable pub rotate_read : Option SessionContext → Exec World (Option SessionContext)
  rotate_read none = pure none
  rotate_read (some current) = do
    modify (delete_session current.session.id)
    renewed ← renew current.user current.session.authenticated_at (record {
      ip_address = current.session.ip_address;
      user_agent = current.session.user_agent;
    })
    pure (some renewed)

  unfoldable pub rotate : String → Exec World (Option SessionContext)
  rotate token = do current ← read token; rotate_read current
