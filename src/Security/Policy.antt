-- ===== src/Security/Policy.antt =====
-- src/fastauth/security/policy.py, over the database session strategy. The hook of the application
-- and the handlers of src/fastauth/runtime/hooks.py are the application's code, and parameters. The
-- in-memory adapter is a `UserStatusStore`, and the database strategy a `RefreshSessionStrategy`.
pub mod Reading
pub mod Suspension
pub mod Standing
use fastauth.Prelude.{
  ℕ, ◌+◌, String, Bool, true, false, not, ◌&&◌, ◌||◌, Option, none, some, List, [], ◌∷◌, leb, ltb,
  if◌then◌else◌,
}
use fastauth.Domain.Models.{User, Session, ApiKey}
use fastauth.Domain.Errors.{
  FastAuthError, Result, ok, err, Exec, pure, raise, ◌>>=◌, ◌>>◌, raise_if, policy_denied,
  email_not_verified, invalid_credentials, not_found, value_error,
}
use fastauth.Memory.Users.{get_user_by_id, set_user_active}
use fastauth.Memory.Sessions.{delete_sessions_for_user}
use fastauth.Memory.RefreshTokens.{
  delete_refresh_tokens_for_user, delete_refresh_tokens_for_session,
}
use fastauth.Domain.Events.{user_updated}
use fastauth.Runtime.World.{External, World, utc_now, query, update, attempt_call, publish}
use fastauth.Domain.Events.{Client}
use fastauth.Security.Sessions.{SessionOptions, SessionContext}
use fastauth.Security.Sessions

pub record PolicyRequest : Type 0 where
  pub action : String
  pub user : User
  pub session : Option Session
  pub api_key : Option ApiKey

-- `DatabaseHooks.handlers` of the model "user".
pub record UserHooks : Type 0 where
  pub before_create : List (User → Exec World (Option User))
  pub after_create : List (User → Exec World (Option User))
  pub before_delete : List (User → Exec World (Option User))
  pub after_delete : List (User → Exec World (Option User))
  pub before_update : List (User → Exec World (Option User))
  pub after_update : List (User → Exec World (Option User))

unfoldable pub chosen : User → Option User → User
chosen current none = current
chosen current (some result) = result

-- `DatabaseHooks.run` for a phase before a change: each handler may replace what the next one sees.
unfoldable pub run_before : List (User → Exec World (Option User)) → User → Exec World User
run_before [] current = pure current
run_before (handler ∷ handlers) current = do
  result ← handler current
  run_before handlers (chosen current result)

-- `DatabaseHooks.run` for a phase after it.
unfoldable pub run_after : List (User → Exec World (Option User)) → User → Exec World User
run_after [] payload = pure payload
run_after (handler ∷ handlers) payload = handler payload >> run_after handlers payload

-- The authentication is too old, or its age is not known.
unfoldable pub stale : ℕ → ℕ → Option Session → Bool
stale max_age now none = true
stale max_age now (some session) = elim session.authenticated_at [
  | none ↦ true
  | some at ↦ ltb now at || ltb (at + max_age) now
]

module _ (external : External) (config : SessionOptions)
    (hook : Option (PolicyRequest → Exec World Bool)) where
  unfoldable pub check_age : Option ℕ → Option Session → Exec World (Unit {0})
  check_age none session = pure tt
  check_age (some max_age) session = do
    now ← utc_now external
    raise_if (leb max_age 0) value_error
    raise_if (stale max_age now session) policy_denied

  unfoldable pub ask_hook : PolicyRequest → Exec World (Unit {0})
  ask_hook request = elim hook [
    | none ↦ pure tt
    | some decide ↦ decide request >>= λ allowed. raise_if (not allowed) policy_denied
  ]

  unfoldable pub authorize : PolicyRequest → Bool → Option ℕ → Exec World (Unit {0})
  authorize request require_verified max_age = do
    raise_if (not request.user.active) policy_denied
    raise_if (require_verified && not request.user.email_verified) email_not_verified
    check_age max_age request.session
    ask_hook request

  unfoldable pub request_of : String → SessionContext → PolicyRequest
  request_of action context = record {
    action = action;
    user = context.user;
    session = some context.session;
    api_key = none;
  }

  unfoldable pub admit : Bool → Option ℕ → Option SessionContext → Exec World SessionContext
  admit require_verified max_age none = raise invalid_credentials
  admit require_verified max_age (some context) =
      authorize (request_of "session.read" context)
        (require_verified || config.require_verified_user) max_age
      >> pure context

  -- The views of the user and of the session that the source returns are copies of these fields.
  unfoldable pub authenticate : String → Bool → Option ℕ → Exec World SessionContext
  authenticate token require_verified max_age = do
    context ← Sessions.read external config token
    admit require_verified max_age context

  unfoldable pub clear_credentials : String → Exec World (Unit {0})
  clear_credentials user_id = do
    _ ← update (delete_refresh_tokens_for_user user_id none)
    _ ← update (delete_sessions_for_user user_id none)
    pure tt

  unfoldable pub clear_if : Bool → String → Exec World (Unit {0})
  clear_if needed user_id = if needed then clear_credentials user_id else pure tt

  -- The part of `set_active` that follows the hooks before the update.
  unfoldable pub apply_status : UserHooks → User → User → String → Exec World User
  apply_status hooks user transformed reason = do
    clear_if (transformed.active && not user.active) user.id
    now ← utc_now external
    updated ← attempt_call (set_user_active now user.id transformed.active)
    publish (user_updated updated.id ("active" ∷ []) updated.active reason)
    clear_if (not updated.active) updated.id
    _ ← run_after hooks.after_update updated
    pure updated

  unfoldable pub set_active_found : UserHooks → Bool → String → Option User → Exec World User
  set_active_found hooks active reason none = raise (not_found "user")
  set_active_found hooks active reason (some user) = do
    transformed ← run_before hooks.before_update (record user { active = active })
    apply_status hooks user transformed reason

  -- `is_blank` is `not reason.strip()`.
  unfoldable pub set_active : UserHooks → (String → Bool) → String → Bool → String → Exec World User
  set_active hooks is_blank user_id active reason = do
    raise_if (is_blank reason) value_error
    user ← query (get_user_by_id user_id)
    set_active_found hooks active reason user

  -- The rest are the methods of `PolicySessionStrategy`.
  unfoldable pub deny_issued : SessionContext → Exec World SessionContext
  deny_issued created = do
    Sessions.revoke external config created.token
    _ ← update (delete_refresh_tokens_for_session created.session.id)
    raise policy_denied

  unfoldable pub check_current : SessionContext → Option User → Exec World SessionContext
  check_current created none = deny_issued created
  check_current created (some user) =
      if not user.active then deny_issued created else pure (record created { user = user })

  unfoldable pub check_issued_user : SessionContext → Exec World SessionContext
  check_issued_user created = do
    current ← query (get_user_by_id created.user.id)
    check_current created current

  unfoldable pub create : User → Client → Exec World SessionContext
  create user client = do
    authorize (record { action = "session.issue"; user = user; session = none; api_key = none })
        false none
    created ← Sessions.create external config user client
    check_issued_user created

  unfoldable pub renew : User → Option ℕ → Client → Exec World SessionContext
  renew user authenticated_at client = do
    authorize (record { action = "session.refresh"; user = user; session = none; api_key = none })
        config.require_verified_user none
    renewed ← Sessions.renew external config user authenticated_at client
    check_issued_user renewed

  -- Two errors of the policy are caught, and the context is withheld.
  unfoldable pub withheld : SessionContext → Result (Unit {0}) → Result (Option SessionContext)
  withheld context (ok _) = ok (some context)
  withheld context (err policy_denied) = ok none
  withheld context (err email_not_verified) = ok none
  withheld context (err e) = err e

  unfoldable pub screen : Option SessionContext → Exec World (Option SessionContext)
  screen none w = (ok none, w)
  screen (some context) w =
      let (r, w') =
        authorize (request_of "session.read" context) config.require_verified_user none w in
      (withheld context r, w')

  unfoldable pub read : String → Exec World (Option SessionContext)
  read token = do context ← Sessions.read external config token; screen context

  unfoldable pub revoke_refresh : Option SessionContext → Exec World (Unit {0})
  revoke_refresh none = pure tt
  revoke_refresh (some current) = do
    _ ← update (delete_refresh_tokens_for_session current.session.id)
    pure tt

  unfoldable pub revoke : String → Exec World (Unit {0})
  revoke token = do
    current ← Sessions.read external config token
    Sessions.revoke external config token
    revoke_refresh current

  unfoldable pub revoke_all : String → Option String → Exec World ℕ
  revoke_all user_id except_session_id =
      Sessions.revoke_all external config user_id except_session_id

  unfoldable pub rotate_screened :
      String → Option SessionContext → Exec World (Option SessionContext)
  rotate_screened token none = pure none
  rotate_screened token (some _) = Sessions.rotate external config token

  unfoldable pub rotate : String → Exec World (Option SessionContext)
  rotate token = do current ← read token; rotate_screened token current
