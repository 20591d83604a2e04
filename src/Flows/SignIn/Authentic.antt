-- ===== src/Flows/SignIn/Authentic.antt =====
-- What a sign-in that returned tells of the account.
use fastauth.Prelude.{
  String, ◌≡◌, refl, ap, ◌∙◌, subst, Bool, true, false, not, ◌&&◌, Option, none, some, inl, inr,
  Bool-cases, Option-cases, arith,
}
use fastauth.Domain.Enums.{ProviderId}
use fastauth.Domain.Errors.{email_not_verified, invalid_request, Result, ok, err, raise_if}
use fastauth.Domain.Errors.Peel.{continue-ok, raise_if-ok, raise_if-state}
use fastauth.Domain.Events.{Client}
use fastauth.Domain.Models.{User, Account}
use fastauth.Flows.Context.{AuthContext, CredentialDelivery}
use fastauth.Flows.Credentials.{
  record_failure_and_maybe_emit, AuthenticationResponse, validate_email_password_delivery,
  reject_sign_in, is_refused_delivery,
}
use fastauth.Flows.SignIn.{admit_user, check_password, check_account, check_user, complete_sign_in}
use fastauth.Memory.{Memory}
use fastauth.Memory.Accounts.{get_account_for_user}
use fastauth.Runtime.World.{World, query}
use fastauth.Security.Policy.Standing.{authorize-ok}
use fastauth.Security.Policy.{PolicyRequest, authorize}
use fastauth.Security.Sessions.{SessionContext}
use fastauth.Security.Tracker
use fastauth.Security.Tracker.Calls.{check_locked-memory}

abbrev pub is_ok {ℓ} : {A : Type ℓ} → Result A → Bool
is_ok (ok a) = true
is_ok (err e) = false

module _ (context : AuthContext) (password identifier : String) (client : Client)
    (delivery : CredentialDelivery) where
  -- The user was found, the password is the one of the credential account, and the account is in good
  -- standing.
  abbrev pub IsAuthentic : Option User → Memory → Type 0
  IsAuthentic found m =
      (user : User) × (account : Account) × (stored : String) × (found ≡ some user)
      × (get_account_for_user user.id ProviderId.credential m ≡ some account)
      × (account.password ≡ some stored)
      × (context.hasher.verify password stored ≡ true)
      × (user.active ≡ true)
      × ((context.require_verified_for_sign_in && not user.email_verified) ≡ false)
      × ((context.session.require_verified_user && not user.email_verified) ≡ false)

  reject_sign_in-err :
      (w : World) (r : AuthenticationResponse × SessionContext)
      → (reject_sign_in context identifier client w).0 ≡ ok r
      → ⊥
  unfolding reject_sign_in
  reject_sign_in-err w r e =
      let (u, done, rest) =
        continue-ok _ (record_failure_and_maybe_emit context identifier client w) r e in
      ground arith

  admit_user-ok :
      (user : User) (account : Account) (stored : String) (w : World)
      (r : AuthenticationResponse × SessionContext)
      → (admit_user context user account stored password identifier client delivery w).0 ≡ ok r
      → (user.active ≡ true)
        × ((context.require_verified_for_sign_in && not user.email_verified) ≡ false)
        × ((context.session.require_verified_user && not user.email_verified) ≡ false)
  unfolding admit_user
  admit_user-ok user account stored w r e =
      let unverified = context.require_verified_for_sign_in && not user.email_verified in
      let (u, standing, rest) = continue-ok _ (raise_if unverified email_not_verified w) r e in
      let at = (raise_if unverified email_not_verified w).1 in
      let request : PolicyRequest = record {
        action = "password.sign_in";
        user = user;
        session = none;
        api_key = none;
      } in
      let required = context.session.require_verified_user in
      let asked =
        authorize context.external context.session context.policy_hook request required none at in
      let (v, authorized, rest') = continue-ok _ asked r rest in
      let (active, verified) =
        authorize-ok context.external context.session context.policy_hook request required at v
          authorized in
      (active, raise_if-ok unverified email_not_verified w u standing, verified)

  check_user-IsAuthentic :
      (found : Option User) (w : World) (r : AuthenticationResponse × SessionContext)
      → (check_user context found password identifier client delivery w).0 ≡ ok r
      → IsAuthentic found w.memory
  unfolding check_user check_account check_password query
  check_user-IsAuthentic none w r e = absurd (reject_sign_in-err w r e)
  check_user-IsAuthentic (some user) w r e =
      let look = get_account_for_user user.id ProviderId.credential w.memory in
      elim (Option-cases look) [
        | inl missing ↦ absurd (reject_sign_in-err w r (simp missing at e))
        | inr (account, there) ↦ elim (Option-cases account.password) [
          | inl empty ↦ absurd (reject_sign_in-err w r (simp (there, empty) at e))
          | inr (stored, p) ↦ elim (Bool-cases (context.hasher.verify password stored)) [
            | inl right ↦
                let (active, verified, required) =
                  admit_user-ok user account stored w r (simp (there, p, right) at e) in
                (user, account, stored, refl, there, p, right, active, verified, required)
            | inr wrong ↦ absurd (reject_sign_in-err w r (simp (there, p, wrong) at e))
          ]
        ]
      ]

  -- Let a sign-in return, for the user that was found under the identifier or for none. Then a user was
  -- found, with a credential account whose stored password the given one verifies against, the user is
  -- active, and the email is verified if the options require that of a sign-in or of a session's user.
  pub complete_sign_in-IsAuthentic :
      (found : Option User) (w : World) (r : AuthenticationResponse × SessionContext)
      → (complete_sign_in context found password identifier client delivery w).0 ≡ ok r
      → IsAuthentic found w.memory
  unfolding complete_sign_in validate_email_password_delivery
  complete_sign_in-IsAuthentic found w r e =
      let (u, allowed, rest) =
        continue-ok _ (validate_email_password_delivery context delivery w) r e in
      let at = (validate_email_password_delivery context delivery w).1 in
      let checked = Tracker.check_locked context.external context.tracker identifier at in
      let (v, unlocked, rest') = continue-ok _ checked r rest in
      let same =
        check_locked-memory context.external context.tracker identifier at
        ∙ ap (λ v. v.memory)
            (raise_if-state (is_refused_delivery context.email_password delivery) invalid_request
              w) in
      subst (IsAuthentic found) same (check_user-IsAuthentic found checked.1 r rest')
