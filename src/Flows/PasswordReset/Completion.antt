-- ===== src/Flows/PasswordReset/Completion.antt =====
-- What a password reset that returned has done.
use fastauth.Prelude.{
  suc, String, ◌≡◌, refl, sym, ap, ◌∙◌, subst, true, false, Option, none, some, arith, eq_refl,
  ◌==◌, ◌&&◌,
}
use fastauth.Dict.{get, put, find, row_of}
use fastauth.Dict.Laws.{get-put}
use fastauth.Dict.Tables.{put-IsTable}
use fastauth.Domain.Enums.{ProviderId, same_provider, VerificationPurpose}
use fastauth.Domain.Errors.{ok, returned}
use fastauth.Domain.Errors.Peel.{continue-ok_next}
use fastauth.Domain.Events.{Client}
use fastauth.Domain.Models.{User, Account, Session, RefreshToken}
use fastauth.Flows.Context.{AuthContext}
use fastauth.Flows.Mail.{consume_token}
use fastauth.Flows.Mail.Tokens.{consume_token-state, attempt_verification-identities}
use fastauth.Flows.PasswordReset.{reset_account, reset_user, reset_password}
use fastauth.Flows.PasswordReset.Revocation.{
  Credentials, revoked, revoked-HasNoCredentials, reset_account-credentials,
}
use fastauth.Memory.{Memory}
use fastauth.Memory.Accounts.{get_account_for_user}
use fastauth.Memory.Accounts.Lookup.{get_account_for_user-id}
use fastauth.Memory.Invariant.Defs.{IsWellFormed, account_key}
use fastauth.Memory.Invariant.Steps.{step-IsWellFormed}
use fastauth.Memory.Ops.{step}
use fastauth.Memory.Ops
use fastauth.Memory.RefreshTokens.{delete_refresh_tokens_for_user, revoke_where}
use fastauth.Memory.Sessions.{delete_sessions_for_user}
use fastauth.Memory.Verifications.{attempt_verification}
use fastauth.Memory.Users.{get_user_by_email}
use fastauth.Runtime.World.{World, query}
use fastauth.Security.Passwords.{validate_password, PasswordOptions}
use fastauth.Security.Policy.Suspension.{HasNoCredentials}

validate_password-same :
    (config : PasswordOptions) (value raw : String)
    → validate_password config value ≡ ok raw
    → raw ≡ value
unfolding validate_password
validate_password-same config value raw e = ground arith

-- The password of a credential account after the reset.
abbrev pub HasNewPassword : AuthContext → String → Account → String → Memory → Type 0
HasNewPassword context plain account salt m =
    (stored : Account) × (get m.accounts account.id ≡ some stored)
    × (stored.user_id ≡ account.user_id)
    × (stored.password ≡ some (context.hasher.hash salt plain))

put_accounts-IsWellFormed :
    (m : Memory) (account : Account)
    → IsWellFormed m
    → IsWellFormed (record m { accounts = put m.accounts account.id account })
put_accounts-IsWellFormed m account wf = record {
  users = wf.users;
  sessions = wf.sessions;
  accounts = put-IsTable account_key m.accounts account wf.accounts;
  verifications = wf.verifications;
  api_keys = wf.api_keys;
  jwks_keys = wf.jwks_keys;
  rate_limits = wf.rate_limits;
  refresh_tokens = wf.refresh_tokens;
}

revoked-accounts : (user_id : String) (m : Memory) → (revoked user_id m).accounts ≡ m.accounts
unfolding delete_sessions_for_user delete_refresh_tokens_for_user revoke_where
revoked-accounts user_id m = refl

module _ (context : AuthContext) where
  reset_account-done :
      (user : User) (raw_password : String) (client : Client) (account : Account) (w : World)
      → IsWellFormed w.memory
      → get w.memory.accounts account.id ≡ some account
      → let w' = (reset_account context user raw_password client (some account) w).1 in
        HasNoCredentials user.id w'.memory
        × HasNewPassword context raw_password account (context.external.secret w.secrets) w'.memory
  reset_account-done user raw_password client account w wf there =
      let updated = record account {
        password = some (context.hasher.hash (context.external.secret w.secrets) raw_password);
        updated_at = context.external.clock w.ticks;
      } in
      let m = record w.memory { accounts = put w.memory.accounts account.id updated } in
      let (done, same) =
        reset_account-credentials context user raw_password client account w (rw there refl) in
      let gone =
        revoked-HasNoCredentials user.id m (put_accounts-IsWellFormed w.memory updated wf) in
      let stands : get (revoked user.id m).accounts account.id ≡ some updated =
        rw (revoked-accounts user.id m) (
          ground
            (arith, get-put w.memory.accounts account.id account.id updated, eq_refl account.id)) in
      subst
        (λ (c : Credentials).
          (((k : String) (t : RefreshToken) → get c.1 k ≡ some t → (t.user_id == user.id) ≡ false)
            × ((k : String) (t : Session) → get c.0 k ≡ some t → (t.user_id == user.id) ≡ false))
          × ((stored : Account) × (get c.2 account.id ≡ some stored)
              × (stored.user_id ≡ account.user_id)
              × (stored.password
                  ≡ some (context.hasher.hash (context.external.secret w.secrets) raw_password))))
        (sym same) (gone, (updated, stands, refl, refl))

  reset_found-done :
      (user : User) (raw_password : String) (client : Client) (found : Option Account) (w : World)
      → IsWellFormed w.memory
      → get_account_for_user user.id ProviderId.credential w.memory ≡ found
      → (reset_account context user raw_password client found w).0 ≡ ok tt
      → let w' = (reset_account context user raw_password client found w).1 in
        (account : Account) × (found ≡ some account)
        × HasNoCredentials user.id w'.memory
        × HasNewPassword context raw_password account (context.external.secret w.secrets) w'.memory
  unfolding reset_account
  reset_found-done user raw_password client none w wf named e = ground arith
  reset_found-done user raw_password client (some account) w wf named e =
      let (gone, changed) = reset_account-done user raw_password client account w wf (
        get_account_for_user-id user.id ProviderId.credential account w.memory wf.accounts named) in
      (account, refl, gone, changed)

  reset_user-done :
      (raw_password : String) (client : Client) (found : Option User) (w : World)
      → IsWellFormed w.memory
      → (reset_user context raw_password client found w).0 ≡ ok tt
      → let w' = (reset_user context raw_password client found w).1 in
        (user : User) × (account : Account) × (found ≡ some user)
        × (get_account_for_user user.id ProviderId.credential w.memory ≡ some account)
        × HasNoCredentials user.id w'.memory
        × HasNewPassword context raw_password account (context.external.secret w.secrets) w'.memory
  unfolding reset_user query
  reset_user-done raw_password client none w wf e = ground arith
  reset_user-done raw_password client (some user) w wf e =
      let found = get_account_for_user user.id ProviderId.credential w.memory in
      let (account, named, gone, changed) =
        reset_found-done user raw_password client found w wf refl e in
      (user, account, refl, named, gone, changed)

  -- The state after the token was consumed.
  abbrev after_token : String → String → World → World
  after_token email value_hash w = record w {
    ticks = suc w.ticks;
    memory =
        (attempt_verification email VerificationPurpose.password_reset value_hash
          (context.external.clock w.ticks) none true w.memory).1;
  }

  reset_password-stages :
      (email token new_password : String) (client : Client) (w : World)
      → (reset_password context email token new_password client w).0 ≡ ok tt
      → let at = after_token email (context.external.sha256 token) w in
        reset_password context email token new_password client w
        ≡ reset_user context new_password client
            (get_user_by_email context.tools.lower email at.memory)
            at
  unfolding reset_password query
  reset_password-stages email token new_password client w e =
      let value_hash = context.external.sha256 token in
      let (raw, valid, next) =
        continue-ok_next _ (returned (validate_password context.password new_password) w) tt e in
      let consumed = consume_token context email VerificationPurpose.password_reset value_hash w in
      let (row, accepted, next') = continue-ok_next _ consumed tt (ap (λ q. q.0) (sym next) ∙ e) in
      let state =
        consume_token-state context email VerificationPurpose.password_reset value_hash w in
      let same = validate_password-same context.password new_password raw valid in
      next
      ∙ next'
      ∙ ap
          (λ at.
            reset_user context raw client (get_user_by_email context.tools.lower email at.memory)
              at)
          state
      ∙ ap
          (λ plain.
            reset_user context plain client
              (get_user_by_email context.tools.lower email (after_token email value_hash w).memory)
              (after_token email value_hash w))
          same

  -- In a well-formed state: let a password reset return. Then a user was found under the email, with a
  -- credential account; that account now holds the hash of the new password, with the next salt, and
  -- the user has no session and no refresh token left.
  pub reset_password-HasNoCredentials :
      (email token new_password : String) (client : Client) (w : World)
      → IsWellFormed w.memory
      → (reset_password context email token new_password client w).0 ≡ ok tt
      → let w' = (reset_password context email token new_password client w).1 in
        (user : User) × (account : Account) × (get_user_by_email context.tools.lower email w.memory
          ≡ some user)
        × (get_account_for_user user.id ProviderId.credential w.memory ≡ some account)
        × HasNoCredentials user.id w'.memory
        × HasNewPassword context new_password account (context.external.secret w.secrets) w'.memory
  unfolding step get_user_by_email get_account_for_user
  reset_password-HasNoCredentials email token new_password client w wf e =
      let value_hash = context.external.sha256 token in
      let at = after_token email value_hash w in
      let now = context.external.clock w.ticks in
      let purpose = VerificationPurpose.password_reset in
      let same = attempt_verification-identities email purpose value_hash now none true w.memory in
      let stages = reset_password-stages email token new_password client w e in
      let wf' =
        step-IsWellFormed (Ops.Op.attempt_verification email purpose value_hash now none true)
          w.memory wf in
      let (user, account, named, held, gone, changed) =
        reset_user-done new_password client (get_user_by_email context.tools.lower email at.memory)
          at wf' (ap (λ q. q.0) (sym stages) ∙ e) in
      let salt = context.external.secret w.secrets in
      let lower = context.tools.lower in
      (
        user,
        account,
        ap (λ i. row_of (find (λ (row : User). lower row.email == lower email) i.0)) (sym same)
            ∙ named,
        ap
              (λ i. row_of (
                find
                  (λ (row : Account).
                    row.user_id == user.id && same_provider row.provider_id ProviderId.credential)
                  i.1))
              (sym same)
            ∙ held,
        subst (λ q. HasNoCredentials user.id q.1.memory) (sym stages) gone,
        subst (λ q. HasNewPassword context new_password account salt q.1.memory) (sym stages)
            changed,
      )
