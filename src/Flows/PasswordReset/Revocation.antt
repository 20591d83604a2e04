-- ===== src/Flows/PasswordReset/Revocation.antt =====
-- What a password reset leaves of the user's sessions and refresh tokens.
use fastauth.Prelude.{
  ◌∷◌, map, keep, ℕ, is_some, suc, String, ◌≡◌, refl, ap, ◌∙◌, Bool, true, Option, none, some, inl,
  inr, arith, List, Bool-cases, Option-cases, leb, contains,
}
use fastauth.Dict.{Dict, get, put, values}
use fastauth.Domain.Errors.{ok, Exec, ◌>>◌}
use fastauth.Domain.Events.{AuthEvent, Client, password_changed, password_reset_completed}
use fastauth.Domain.Models.{User, Account, Session, RefreshToken}
use fastauth.Flows.Context.{AuthContext}
use fastauth.Flows.Hooks.{reset_username, reset_lockouts}
use fastauth.Flows.PasswordReset.{revoked_events, reset_account}
use fastauth.Memory.{Memory}
use fastauth.Memory.Accounts.{update_account}
use fastauth.Memory.Invariant.Defs.{IsWellFormed}
use fastauth.Memory.Invariant.Steps.{step-IsWellFormed}
use fastauth.Memory.Ops.{step}
use fastauth.Memory.Ops
use fastauth.Memory.RateLimits.{delete_rate_limit}
use fastauth.Memory.RefreshTokens.{
  delete_refresh_tokens_for_user, revoke_where, pop_sessions, doomed_families,
}
use fastauth.Memory.RefreshTokens.Families.{get-pop_sessions}
use fastauth.Memory.Sessions.{delete_sessions_for_user}
use fastauth.Memory.Sessions.ForUser.{delete_sessions_for_user_exact}
use fastauth.Runtime.World.{World, publish, utc_now, attempt_call, update}
use fastauth.Security.Passwords.{hash_password}
use fastauth.Security.Policy
use fastauth.Security.Sessions
use fastauth.Security.RefreshTokens.{revoke_for_user}
use fastauth.Security.Policy.Suspension.{HasNoCredentials, no_tokens}
use fastauth.Security.Tracker
use fastauth.Security.Tracker.Calls.{reset-part}

-- The sessions are deleted, and then the refresh tokens.
abbrev pub revoked : String → Memory → Memory
revoked user_id m =
    (delete_refresh_tokens_for_user user_id none (delete_sessions_for_user user_id none m).1).1

popped_left :
    (ids : List String) (sessions : Dict Session) (k : String) (s : Session)
    → get (pop_sessions ids sessions).1 k ≡ some s
    → get sessions k ≡ some s
popped_left ids sessions k s left = ground (arith, get-pop_sessions ids sessions k)

-- Fewer sessions are left after the refresh tokens of a user are deleted.
sessions_left :
    (user_id k : String) (s : Session) (m : Memory)
    → get (delete_refresh_tokens_for_user user_id none m).1.sessions k ≡ some s
    → get m.sessions k ≡ some s
unfolding delete_refresh_tokens_for_user revoke_where
sessions_left user_id k s m left =
    let doomed : RefreshToken → Bool =
      λ token. contains token.family_id (doomed_families user_id none m.refresh_tokens) in
    popped_left
      (map (λ (token : RefreshToken). token.session_id) (keep doomed (values m.refresh_tokens)))
      m.sessions k s left

pub revoked-HasNoCredentials :
    (user_id : String) (m : Memory) → IsWellFormed m → HasNoCredentials user_id (revoked user_id m)
unfolding step
revoked-HasNoCredentials user_id m wf =
    let m' = (delete_sessions_for_user user_id none m).1 in
    let wf' = step-IsWellFormed (Ops.Op.delete_sessions_for_user user_id none) m wf in
    (
      no_tokens user_id m' wf',
      λ k s there.
          let (_, spared) =
            (delete_sessions_for_user_exact user_id none m wf k s).0
              (sessions_left user_id k s m' there) in
          ground arith,
    )

-- The tables that credentials stand in.
abbrev pub Credentials : Type 0
Credentials = Dict Session × Dict RefreshToken × Dict Account

abbrev pub credentials : Memory → Credentials
credentials m = (m.sessions, m.refresh_tokens, m.accounts)

delete_rate_limit-credentials :
    (key : String) (m : Memory) → credentials (delete_rate_limit key m) ≡ credentials m
unfolding delete_rate_limit
delete_rate_limit-credentials key m = refl

update_account-there :
    (now : ℕ) (account old : Account) (w : World)
    → get w.memory.accounts account.id ≡ some old
    → let updated = record account { updated_at = now } in
      attempt_call (update_account now account) w ≡ (
        ok updated,
        record w {
          memory = record w.memory { accounts = put w.memory.accounts account.id updated };
        },
      )
unfolding attempt_call update_account
update_account-there now account old w there = rw (there, update_account) refl

module _ (context : AuthContext) where
  reset_username-credentials :
      (username : Option String) (w : World)
      → credentials (reset_username context username w).1.memory ≡ credentials w.memory
  unfolding reset_username
  reset_username-credentials none w = refl
  reset_username-credentials (some username) w =
      reset-part credentials delete_rate_limit-credentials context.external context.tracker username
        w

  pub reset_lockouts-credentials :
      (user : User) (w : World)
      → credentials (reset_lockouts context user w).1.memory ≡ credentials w.memory
  unfolding reset_lockouts Tracker.reset
  reset_lockouts-credentials user w =
      reset_username-credentials user.username
        (Tracker.reset context.external context.tracker user.email w).1
      ∙ reset-part credentials delete_rate_limit-credentials context.external context.tracker
          user.email w

  reset_lockouts-ok :
      (user : User) (w : World)
      → reset_lockouts context user w ≡ (ok tt, (reset_lockouts context user w).1)
  unfolding reset_lockouts reset_username Tracker.reset
  reset_lockouts-ok user w = elim (Option-cases user.username) [
    | inl e ↦ simp e refl
    | inr (username, e) ↦ simp e refl
  ]

  revoked_events-memory :
      (user_id : String) (client : Client) (n : ℕ) (w : World)
      → ((revoked_events context user_id client n w).0 ≡ ok tt)
        × ((revoked_events context user_id client n w).1.memory ≡ w.memory)
  unfolding revoked_events publish
  revoked_events-memory user_id client n w = elim (Bool-cases (leb n 0)) [
    | inl e ↦ simp e (refl, refl)
    | inr e ↦ simp e (refl, refl)
  ]

  -- What follows the revocation.
  abbrev finish : User → Client → ℕ → Exec World (Unit {0})
  finish user client n =
      reset_lockouts context user
      >> (publish (password_changed user.id client)
          >> (publish (password_reset_completed user.id client)
              >> revoked_events context user.id client n))

  finish-credentials :
      (user : User) (client : Client) (n : ℕ) (w : World)
      → let (r, w') = finish user client n w in
        (r ≡ ok tt) × (credentials w'.memory ≡ credentials w.memory)
  unfolding publish
  finish-credentials user client n w =
      let w' = (reset_lockouts context user w).1 in
      let events : List AuthEvent =
        password_reset_completed user.id client ∷ password_changed user.id client ∷ w'.published in
      let (done, same) =
        revoked_events-memory user.id client n (record w' { published = events }) in
      rw (reset_lockouts-ok user w) (done, ap credentials same ∙ reset_lockouts-credentials user w)

  -- The account gets the new hash, and the credentials of the user are revoked.
  pub reset_account-credentials :
      (user : User) (raw_password : String) (client : Client) (account : Account) (w : World)
      → is_some (get w.memory.accounts account.id) ≡ true
      → let updated = record account {
        password = some (context.hasher.hash (context.external.secret w.secrets) raw_password);
        updated_at = context.external.clock w.ticks;
      } in
        let (r, w') = reset_account context user raw_password client (some account) w in
        (r ≡ ok tt)
        × (credentials w'.memory
            ≡ credentials (
                revoked user.id
                  (record w.memory { accounts = put w.memory.accounts account.id updated })))
  unfolding reset_account hash_password utc_now Policy.revoke_all Sessions.revoke_all update
      revoke_for_user
  reset_account-credentials user raw_password client account w there =
      elim (Option-cases (get w.memory.accounts account.id)) [
        | inl missing ↦ absurd (ground arith)
        | inr (old, e) ↦
            let hashed = context.hasher.hash (context.external.secret w.secrets) raw_password in
            let now = context.external.clock w.ticks in
            let at = record w { ticks = suc w.ticks; secrets = suc w.secrets } in
            let updated = record account { password = some hashed; updated_at = now } in
            let m = record w.memory { accounts = put w.memory.accounts account.id updated } in
            let count = (delete_sessions_for_user user.id none m).0 in
            rw (update_account-there now (record account { password = some hashed }) old at e)
              (finish-credentials user client count (record at { memory = revoked user.id m }))
      ]
