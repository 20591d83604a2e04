-- ===== src/Security/Policy/Suspension.antt =====
-- `PolicyService.set_active` when it suspends an account.
use fastauth.Prelude.{
  suc, String, ◌≡◌, refl, sym, subst, Bool, false, Option, none, some, [], ◌∷◌, arith, ◌==◌, eq_iff,
  Bool-cases, inl, inr,
}
use fastauth.Dict.{get, put}
use fastauth.Dict.Laws.{get-put}
use fastauth.Dict.Tables.{keyed, put-IsTable}
use fastauth.Domain.Models.{User, Session, RefreshToken}
use fastauth.Domain.Errors.{ok, Exec}
use fastauth.Memory.{Memory}
use fastauth.Memory.Users.{get_user_by_id, set_user_active}
use fastauth.Memory.Sessions.{delete_sessions_for_user}
use fastauth.Memory.Sessions.ForUser.{delete_sessions_for_user_exact}
use fastauth.Memory.RefreshTokens.{delete_refresh_tokens_for_user, revoke_where}
use fastauth.Memory.RefreshTokens.UserFamilies.{delete_refresh_tokens_for_user_left}
use fastauth.Memory.Ops
use fastauth.Memory.Ops.{step}
use fastauth.Memory.Invariant.Defs.{IsWellFormed, user_key}
use fastauth.Memory.Invariant.Steps.{step-IsWellFormed}
use fastauth.Domain.Events.{user_updated}
use fastauth.Runtime.World.{External, World, utc_now, query, update, attempt_call, publish}
use fastauth.Security.Sessions.{SessionOptions}
use fastauth.Security.Policy.{
  PolicyRequest, UserHooks, run_before, run_after, clear_credentials, clear_if, apply_status,
  set_active_found, set_active,
}

-- The user has no refresh token and no session.
abbrev pub HasNoCredentials : String → Memory → Type 0
HasNoCredentials user_id m =
    ((k : String) (t : RefreshToken)
      → get m.refresh_tokens k ≡ some t
      → (t.user_id == user_id) ≡ false)
    × ((k : String) (s : Session) → get m.sessions k ≡ some s → (s.user_id == user_id) ≡ false)

abbrev cleared : String → Memory → Memory
cleared user_id m =
    (delete_sessions_for_user user_id none (delete_refresh_tokens_for_user user_id none m).1).1

pub no_tokens :
    (user_id : String) (m : Memory) (wf : IsWellFormed m) (k : String) (t : RefreshToken)
    → get (delete_refresh_tokens_for_user user_id none m).1.refresh_tokens k ≡ some t
    → (t.user_id == user_id) ≡ false
no_tokens user_id m wf k t there = elim (Bool-cases (t.user_id == user_id)) [
  | inl own ↦
      let (_, _, _, kept, _) =
        delete_refresh_tokens_for_user_left user_id m wf none k t there own in
      absurd (ground arith)
  | inr other ↦ other
]

cleared-HasNoCredentials :
    (user_id : String) (m : Memory) → IsWellFormed m → HasNoCredentials user_id (cleared user_id m)
unfolding delete_sessions_for_user step
cleared-HasNoCredentials user_id m wf =
    let wf' = step-IsWellFormed (Ops.Op.delete_refresh_tokens_for_user user_id none) m wf in
    (
      no_tokens user_id m wf,
      λ k s there.
          let (_, spared) =
            (delete_sessions_for_user_exact user_id none
                (delete_refresh_tokens_for_user user_id none m).1 wf' k s).0
              there in
          ground arith,
    )

clear_credentials_lem :
    (external : External) (config : SessionOptions)
    (hook : Option (PolicyRequest → Exec World Bool)) (user_id : String) (w : World)
    → clear_credentials external config hook user_id w
      ≡ (ok tt, record w { memory = cleared user_id w.memory })
unfolding clear_credentials update
clear_credentials_lem external config hook user_id w = refl

abbrev no_hooks : UserHooks
no_hooks = record {
  before_create = [];
  after_create = [];
  before_update = [];
  after_update = [];
  before_delete = [];
  after_delete = [];
}

cleared-users : (user_id : String) (m : Memory) → (cleared user_id m).users ≡ m.users
unfolding delete_sessions_for_user delete_refresh_tokens_for_user revoke_where
cleared-users user_id m = refl

put_users-IsWellFormed :
    (m : Memory) (user : User)
    → IsWellFormed m
    → IsWellFormed (record m { users = put m.users user.id user })
put_users-IsWellFormed m user wf = record {
  users = put-IsTable user_key m.users user wf.users;
  sessions = wf.sessions;
  accounts = wf.accounts;
  verifications = wf.verifications;
  api_keys = wf.api_keys;
  jwks_keys = wf.jwks_keys;
  rate_limits = wf.rate_limits;
  refresh_tokens = wf.refresh_tokens;
}

-- The state that a suspension leaves.
suspended_world : External → String → User → World → World
suspended_world external reason user w =
    let suspended = record user { active = false; updated_at = external.clock w.ticks } in
    record w {
      memory = cleared user.id (record w.memory { users = put w.memory.users user.id suspended });
      ticks = suc w.ticks;
      published = user_updated user.id ("active" ∷ []) false reason ∷ w.published;
    }

apply_status-suspends :
    (external : External) (config : SessionOptions)
    (hook : Option (PolicyRequest → Exec World Bool)) (user : User) (reason : String) (w : World)
    → get w.memory.users user.id ≡ some user
    → apply_status external config hook no_hooks user (record user { active = false }) reason w ≡ (
      ok (record user { active = false; updated_at = external.clock w.ticks }),
      suspended_world external reason user w,
    )
unfolding apply_status run_after clear_if clear_credentials utc_now attempt_call publish
    set_user_active update suspended_world get delete_sessions_for_user
apply_status-suspends external config hook user reason w there = simp there refl

module _ (external : External) (config : SessionOptions)
    (hook : Option (PolicyRequest → Exec World Bool)) (is_blank : String → Bool) where
  set_active-apply :
      (user_id reason : String) (user : User) (w : World)
      → get w.memory.users user_id ≡ some user
      → is_blank reason ≡ false
      → set_active external config hook no_hooks is_blank user_id false reason w
        ≡ apply_status external config hook no_hooks user (record user { active = false }) reason w
  unfolding set_active set_active_found run_before query get_user_by_id
  set_active-apply user_id reason user w there reasoned = simp (reasoned, there) refl

  -- In a well-formed state, with no hooks on user updates: suspending a stored user for a reason that
  -- is not blank returns the user, no longer active; that is the stored row; and the user has no
  -- refresh token and no session left.
  pub set_active-suspends :
      (user_id reason : String) (user : User) (w : World)
      → IsWellFormed w.memory
      → get w.memory.users user_id ≡ some user
      → is_blank reason ≡ false
      → let (r, w') =
          set_active external config hook
            (record {
              before_create = [];
              after_create = [];
              before_update = [];
              after_update = [];
              before_delete = [];
              after_delete = [];
            })
            is_blank
            user_id
            false
            reason
            w in
        let suspended = record user { active = false; updated_at = external.clock w.ticks } in
        (r ≡ ok suspended)
        × (get w'.memory.users user_id ≡ some suspended)
        × HasNoCredentials user_id w'.memory
  unfolding suspended_world
  set_active-suspends user_id reason user w wf there reasoned =
      let own : user.id ≡ user_id = keyed wf.users user_id user there in
      let kept : get w.memory.users user.id ≡ some user =
        subst (λ k. get w.memory.users k ≡ some user) (sym own) there in
      let suspended : User = record user { active = false; updated_at = external.clock w.ticks } in
      let stored : Memory = record w.memory { users = put w.memory.users user.id suspended } in
      rw
        (
          set_active-apply user_id reason user w there reasoned,
          apply_status-suspends external config hook user reason w kept,
        )
        (
          refl,
          rw (cleared-users user.id stored) (
              ground
                (arith, get-put w.memory.users user.id user_id suspended, eq_iff user.id user_id)),
          subst (λ k. HasNoCredentials k (cleared user.id stored)) own
              (cleared-HasNoCredentials user.id stored
                (put_users-IsWellFormed w.memory suspended wf)),
        )
