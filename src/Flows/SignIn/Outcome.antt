-- ===== src/Flows/SignIn/Outcome.antt =====
-- What the outcome of a sign-in tells.
use fastauth.Prelude.{
  ℕ, suc, ◌/◌, String, ◌≡◌, refl, sym, subst, true, false, Option, none, some, inl, inr, Bool-cases,
  Option-cases,
}
use fastauth.Domain.Enums.{ProviderId}
use fastauth.Domain.Errors.{Result, ok, err, account_locked, continue}
use fastauth.Domain.Events.{Client}
use fastauth.Domain.Models.{User, Account}
use fastauth.Flows.Context.{AuthContext, CredentialDelivery}
use fastauth.Flows.Credentials.{is_refused_delivery, validate_email_password_delivery}
use fastauth.Flows.SignIn.{check_password, check_account, check_user, complete_sign_in}
use fastauth.Memory.Accounts.{get_account_for_user}
use fastauth.Runtime.World.{World, query}
use fastauth.Security.Buckets.{bucket_of}
use fastauth.Security.Lockout.{lockout_key}
use fastauth.Security.Lockout.Locked.{is_locked}
use fastauth.Security.RateLimit.Shared.{rate_storage}
use fastauth.Security.Tracker
use fastauth.Security.Tracker.Calls.{check_locked-memory, check_locked-locked}

module _ (context : AuthContext) (password identifier : String) (client : Client)
    (delivery : CredentialDelivery) where
  -- The password is not the one of the user's credential account.
  abbrev pub IsWrongFor : User → World → Type 0
  IsWrongFor user w =
      (account : Account) (stored : String)
      → get_account_for_user user.id ProviderId.credential w.memory ≡ some account
      → account.password ≡ some stored
      → context.hasher.verify password stored ≡ false

  check_user-wrong :
      (user : User) (w : World)
      → IsWrongFor user w
      → check_user context (some user) password identifier client delivery w
        ≡ check_user context none password identifier client delivery w
  unfolding check_user check_account check_password query
  check_user-wrong user w wrong =
      let look = get_account_for_user user.id ProviderId.credential w.memory in
      elim (Option-cases look) [
        | inl e ↦ simp e refl
        | inr (account, e) ↦ elim (Option-cases account.password) [
          | inl p ↦ simp (e, p) refl
          | inr (stored, p) ↦ simp (e, p, wrong account stored e p) refl
        ]
      ]

  check_checked-wrong :
      (user : User) (p : Result (Unit {0}) × World)
      → IsWrongFor user p.1
      → continue (λ _. check_user context (some user) password identifier client delivery) p
        ≡ continue (λ _. check_user context none password identifier client delivery) p
  check_checked-wrong user (ok _, w) wrong = check_user-wrong user w wrong
  check_checked-wrong user (err e, w) wrong = refl

  -- Suppose that the password does not verify against the stored password of the credential account
  -- of a user, or that there is no such account or password. Then a sign-in of that user does exactly
  -- what a sign-in under the same identifier does when there is no such user: the same error, the same
  -- count of failures, the same events and the same tables.
  pub complete_sign_in-unknown_user :
      (user : User) (w : World)
      → IsWrongFor user w
      → complete_sign_in context (some user) password identifier client delivery w
        ≡ complete_sign_in context none password identifier client delivery w
  unfolding complete_sign_in validate_email_password_delivery
  complete_sign_in-unknown_user user w wrong =
      let checked = Tracker.check_locked context.external context.tracker identifier w in
      let same = check_locked-memory context.external context.tracker identifier w in
      elim (Bool-cases (is_refused_delivery context.email_password delivery)) [
        | inl refused ↦ simp refused refl
        | inr allowed ↦ simp allowed (
            check_checked-wrong user checked (
              subst
                (λ m.
                  (account : Account) (stored : String)
                  → get_account_for_user user.id ProviderId.credential m ≡ some account
                  → account.password ≡ some stored
                  → context.hasher.verify password stored ≡ false)
                (sym same) wrong))
      ]

  -- With the lockout enabled and a delivery that the options allow: let the bucket of the identifier
  -- hold more failures than the maximum in a window that is still open when the sign-in reads the
  -- clock. Then the sign-in raises the lockout error, whatever the password and whether there is such
  -- a user, and nothing is changed but that the clock was read once.
  pub complete_sign_in-locked :
      (user : Option User) (w : World)
      → is_refused_delivery context.email_password delivery ≡ false
      → context.tracker.lockout.enabled ≡ true
      → is_locked context.tracker.lockout
          (context.external.clock w.ticks / 1000)
          (bucket_of ((rate_storage context.tracker.storage).get (lockout_key identifier) w))
        ≡ true
      → (seconds : ℕ) × (complete_sign_in context user password identifier client delivery w
          ≡ (err (account_locked seconds), record w { ticks = suc w.ticks }))
  unfolding complete_sign_in validate_email_password_delivery
  complete_sign_in-locked user w allowed on locked =
      let (seconds, e) =
        check_locked-locked context.external context.tracker identifier w on locked in
      (seconds, simp (allowed, e) refl)
