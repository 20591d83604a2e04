-- ===== src/Tests/Accounts.antt =====
-- A sign-in that returns, a creation that fails, and a confirmed change of email, on a concrete state.
use fastauth.Prelude.{String, ◌≡◌, refl, none, some, [], ◌∷◌, ◌==◌, if◌then◌else◌}
use fastauth.Dict.{get, put, find}
use fastauth.Domain.Enums.{ProviderId, VerificationPurpose, provider_value, purpose_value}
use fastauth.Domain.Errors.{Exec, err, not_found}
use fastauth.Domain.Models.{User, Account}
use fastauth.Flows.ChangeEmail.{confirm_email_change}
use fastauth.Flows.ChangeEmail.Confirmation.{HasMoved, confirm_email_change-HasMoved}
use fastauth.Flows.Context.{CredentialDelivery}
use fastauth.Flows.Creation.{commit, create_memory_user, delete_memory_user}
use fastauth.Flows.Creation.Compensation.{commit-compensates}
use fastauth.Flows.Credentials.{is_refused_delivery}
use fastauth.Flows.SignIn.{sign_in_email}
use fastauth.Flows.SignIn.Success.{sign_in_email-Returns}
use fastauth.Memory.{Memory}
use fastauth.Memory.Accounts.{get_account_for_user}
use fastauth.Memory.Users.{create_user, find_user_by_pending_email_change, get_user_by_email}
use fastauth.Runtime.Returns.{Returns}
use fastauth.Runtime.World.{World}
use fastauth.Tests.Context.{
  context_with, no_lockout, client, alice_account, with_account, with_account-IsWellFormed,
}
use fastauth.Tests.Samples.{alice, bob, code, external, user_named, world}

sign_in_email-Returns_example :
    Returns
      (sign_in_email
        (context_with no_lockout)
        alice.email
        "secret"
        client
        CredentialDelivery.cookie
        (world with_account))
      with_account.users
unfolding is_refused_delivery find get_user_by_email get_account_for_user provider_value
    fastauth.Security.Tracker.check_locked
sign_in_email-Returns_example =
    sign_in_email-Returns (context_with no_lockout) alice alice_account "secret" alice.email
      "secret" client CredentialDelivery.cookie (world with_account) with_account-IsWellFormed refl
      refl refl refl refl refl refl refl refl refl

-- A call that writes an account, and fails.
broken : Account → Exec World (Unit {0})
broken account w = (err (not_found "account"), w)

abbrev carol : User
carol = user_named "carol"

commit-compensates_example :
    let (r, w') =
      commit create_memory_user broken delete_memory_user external carol ProviderId.credential
        (some "secret")
        (world with_account) in
    (r ≡ err (not_found "account"))
    × ((k : String)
        → get w'.memory.users k ≡ (if carol.id == k then none else get with_account.users k))
unfolding create_user find fastauth.Dict.values broken
commit-compensates_example =
    commit-compensates external broken carol ProviderId.credential (some "secret")
      (not_found "account") (world with_account) (λ account v. refl) refl

-- Two users who wait for the same address, and a challenge for it.
abbrev both_pending : Memory
both_pending = record with_account {
  users =
      ("alice", record alice { pending_email_change = some "new" })
      ∷ ("bob", record bob { pending_email_change = some "new" })
      ∷ [];
  verifications =
      ("code", record code { identifier = "new"; purpose = VerificationPurpose.email_change }) ∷ [];
}

confirm_email_change-HasMoved_example :
    let w = world both_pending in
    let w' = (confirm_email_change (context_with no_lockout) "new" "right" client w).1 in
    (candidate : User) × (moved : User) × (find_user_by_pending_email_change "new" both_pending
      ≡ some candidate)
    × HasMoved "new" moved
    × ((k : String)
        → get w'.memory.users k
          ≡ (if candidate.id == k then some moved else get both_pending.users k))
unfolding confirm_email_change find get put purpose_value fastauth.Dict.values
    fastauth.Flows.Mail.consume_token fastauth.Flows.Mail.by_status fastauth.Flows.Mail.accepted_row
    fastauth.Runtime.World.utc_now fastauth.Runtime.World.attempt_call fastauth.Runtime.World.query
    fastauth.Runtime.World.publish fastauth.Memory.Verifications.attempt_verification
    fastauth.Memory.Verifications.write_back
    fastauth.Storage.Verification.apply_verification_attempt
    fastauth.Storage.Verification.decide_attempt fastauth.Flows.ChangeEmail.confirm_candidate
    fastauth.Flows.ChangeEmail.apply_change fastauth.Flows.ChangeEmail.is_taken
    fastauth.Flows.Hooks.update_user_with_hooks fastauth.Security.Policy.run_before
    fastauth.Security.Policy.run_after fastauth.Memory.Users.find_user_by_pending_email_change
    fastauth.Memory.Users.get_user_by_email fastauth.Memory.Users.update_user
    fastauth.Security.Tracker.reset
confirm_email_change-HasMoved_example =
    confirm_email_change-HasMoved (context_with no_lockout) refl refl "new" "right" client
      (world both_pending) refl
