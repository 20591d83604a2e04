-- ===== src/Flows/SignIn/Success.antt =====
-- That a sign-in with the right password returns.
use fastauth.Prelude.{
  String, ◌≡◌, refl, sym, ap, ◌∙◌, subst, true, false, not, ◌&&◌, none, some, ◌==◌, inl, inr,
  Bool-cases, is_text, eq_refl,
}
use fastauth.Dict.{get}
use fastauth.Domain.Enums.{ProviderId}
use fastauth.Domain.Errors.{ok, ◌>>◌}
use fastauth.Domain.Events.{Client}
use fastauth.Domain.Models.{User, Account}
use fastauth.Flows.Context.{AuthContext, CredentialDelivery}
use fastauth.Flows.Credentials.{is_refused_delivery, validate_email_password_delivery}
use fastauth.Flows.SignIn.{
  rehash, rehash_if_needed, start_session, admit_user, check_password, check_account, check_user,
  complete_sign_in, sign_in_email,
}
use fastauth.Memory.Accounts.Lookup.{get_account_for_user-id}
use fastauth.Memory.Invariant.Defs.{IsWellFormed, account_key, user_key}
use fastauth.Dict.Tables.{IsTable}
use fastauth.Dict.Rows.{get-found}
use fastauth.Memory.Accounts.{get_account_for_user, replace_account_password}
use fastauth.Memory.Users.{get_user_by_email}
use fastauth.Runtime.Returns.{Returns, continue-Returns, continue_ok-Returns}
use fastauth.Runtime.World.{World, utc_now, query, update}
use fastauth.Security.Passwords.{hash_password}
use fastauth.Security.Policy.{PolicyRequest}
use fastauth.Security.Tracker
use fastauth.Security.Tracker.Calls.{reset-users, check_locked-memory}
use fastauth.Flows.SignIn.Start.{authorize-standing, start_session-Returns, Keeps}

abbrev sign_in_request : User → PolicyRequest
sign_in_request user = record {
  action = "password.sign_in";
  user = user;
  session = none;
  api_key = none;
}

module _ (context : AuthContext) where
  reset-Returns :
      (identifier : String) (w : World)
      → Keeps (Tracker.reset context.external context.tracker identifier) w
  unfolding Tracker.reset
  reset-Returns identifier w = (tt, refl, reset-users context.external context.tracker identifier w)

  -- The compare-and-set of a rehash succeeds on the account that was read.
  rehash-Returns :
      (account : Account) (stored password : String) (w : World)
      → get w.memory.accounts account.id ≡ some account
      → account.password ≡ some stored
      → Keeps (rehash context account stored password) w
  unfolding rehash hash_password utc_now update replace_account_password get
  rehash-Returns account stored password w there held =
      let same : is_text account.password stored ≡ true = simp held (eq_refl stored) in
      rw (there, same) (tt, refl, refl)

  rehash_if_needed-Returns :
      (account : Account) (stored password : String) (w : World)
      → get w.memory.accounts account.id ≡ some account
      → account.password ≡ some stored
      → Keeps (rehash_if_needed context account stored password) w
  unfolding rehash_if_needed
  rehash_if_needed-Returns account stored password w there held =
      elim (Bool-cases (context.hasher.needs_rehash stored)) [
        | inl e ↦ simp e (rehash-Returns account stored password w there held)
        | inr e ↦ simp e (tt, refl, refl)
      ]

  admit_user-Returns :
      (user : User) (account : Account) (stored password identifier : String) (client : Client)
      (delivery : CredentialDelivery) (w : World)
      → context.policy_hook ≡ none
      → user.active ≡ true
      → (context.require_verified_for_sign_in && not user.email_verified) ≡ false
      → (context.session.require_verified_user && not user.email_verified) ≡ false
      → get w.memory.users user.id ≡ some user
      → get w.memory.accounts account.id ≡ some account
      → account.password ≡ some stored
      → Keeps (admit_user context user account stored password identifier client delivery) w
  unfolding admit_user
  admit_user-Returns user account stored password identifier client delivery w unhooked active
        verified required there stands held =
      let users = w.memory.users in
      let rehashed = rehash_if_needed context account stored password w in
      let rest =
        continue-Returns
          (λ _.
            Tracker.reset context.external context.tracker identifier
            >> start_session context user client delivery)
          rehashed users (rehash_if_needed-Returns account stored password w stands held)
          (λ _ v same.
            let cleared = reset-Returns identifier v in
            continue-Returns _ (Tracker.reset context.external context.tracker identifier v) users
              (cleared.0, cleared.1, cleared.2 ∙ same)
              (λ _ v' same'.
                start_session-Returns context user client delivery v' users unhooked active there
                  same')) in
      rw
        (
          verified,
          authorize-standing context (sign_in_request user) context.session.require_verified_user w
              unhooked active required,
        )
        rest

  check_user-Returns :
      (user : User) (account : Account) (stored password identifier : String) (client : Client)
      (delivery : CredentialDelivery) (w : World)
      → context.policy_hook ≡ none
      → user.active ≡ true
      → (context.require_verified_for_sign_in && not user.email_verified) ≡ false
      → (context.session.require_verified_user && not user.email_verified) ≡ false
      → IsTable account_key w.memory.accounts
      → get w.memory.users user.id ≡ some user
      → get_account_for_user user.id ProviderId.credential w.memory ≡ some account
      → account.password ≡ some stored
      → context.hasher.verify password stored ≡ true
      → Keeps (check_user context (some user) password identifier client delivery) w
  unfolding check_user check_account check_password query
  check_user-Returns user account stored password identifier client delivery w unhooked active
        verified required rows there named held right =
      simp (named, held, right)
        (admit_user-Returns user account stored password identifier client delivery w unhooked
          active verified required there
          (get_account_for_user-id user.id ProviderId.credential account w.memory rows named) held)

  -- Over well-formed tables, without a policy hook of the application: let the delivery that is asked
  -- for be one that the options allow, and the identifier not be locked out. Let the email be a user's
  -- who is active and, where the sign-in or the session requires it, verified, and who has a credential
  -- account with a password that the given one verifies against. Then the sign-in with that email and
  -- password returns a response and a session, and leaves the users as they are.
  pub sign_in_email-Returns :
      (user : User) (account : Account) (stored email password : String) (client : Client)
      (delivery : CredentialDelivery) (w : World)
      → IsWellFormed w.memory
      → context.policy_hook ≡ none
      → is_refused_delivery context.email_password delivery ≡ false
      → (Tracker.check_locked context.external context.tracker email w).0 ≡ ok tt
      → get_user_by_email context.tools.lower email w.memory ≡ some user
      → user.active ≡ true
      → (context.require_verified_for_sign_in && not user.email_verified) ≡ false
      → (context.session.require_verified_user && not user.email_verified) ≡ false
      → get_account_for_user user.id ProviderId.credential w.memory ≡ some account
      → account.password ≡ some stored
      → context.hasher.verify password stored ≡ true
      → Returns (sign_in_email context email password client delivery w) w.memory.users
  unfolding sign_in_email complete_sign_in validate_email_password_delivery query get_user_by_email
  sign_in_email-Returns user account stored email password client delivery w wf unhooked allowed
        unlocked known active verified required named held right =
      let locked = Tracker.check_locked context.external context.tracker email in
      let same = check_locked-memory context.external context.tracker email w in
      let there =
        get-found user_key (λ row. context.tools.lower row.email == context.tools.lower email)
          w.memory.users user wf.users known in
      let entered =
        check_user-Returns user account stored password email client delivery (locked w).1 unhooked
          active verified required
          (subst (λ m. IsTable account_key m.accounts) (sym same) wf.accounts)
          (ap (λ m. get m.users user.id) same ∙ there)
          (ap (λ m. get_account_for_user user.id ProviderId.credential m) same ∙ named) held
          right in
      let rest =
        continue_ok-Returns (λ _. check_user context (some user) password email client delivery)
          (locked w) w.memory.users tt unlocked
          (entered.0, entered.1, entered.2 ∙ ap (λ m. m.users) same) in
      rw (known, allowed) rest
