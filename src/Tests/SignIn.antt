-- ===== src/Tests/SignIn.antt =====
-- Sign-ins and a password reset on a concrete state.
use fastauth.Prelude.{
  ℕ, String, ◌≡◌, refl, ap, ◌∙◌, false, Option, none, some, [], ◌∷◌, ◌==◌, arith, eq_iff,
}
use fastauth.Dict.{get, find}
use fastauth.Domain.Enums.{provider_value}
use fastauth.Domain.Errors.{err, account_locked}
use fastauth.Domain.Models.{Account}
use fastauth.Flows.Context.{CredentialDelivery}
use fastauth.Flows.Credentials.{is_refused_delivery}
use fastauth.Flows.SignIn.{complete_sign_in}
use fastauth.Flows.SignIn.Outcome.{complete_sign_in-unknown_user, complete_sign_in-locked}
use fastauth.Memory.Accounts.{get_account_for_user}
use fastauth.Runtime.World.{World}
use fastauth.Security.Lockout.{lockout_key}
use fastauth.Tests.Context.{context_with, lockout, client, alice_account, with_account, failures}
use fastauth.Tests.Samples.{alice, world}

password_of : Option Account → Option String
password_of none = none
password_of (some account) = account.password

wrong_password :
    (account : Account) (stored : String)
    → some alice_account ≡ some account
    → account.password ≡ some stored
    → ("guess" == stored) ≡ false
unfolding password_of
wrong_password account stored same held =
    let was : some "secret" ≡ some stored = ap (λ o. password_of o) same ∙ held in
    ground (arith, eq_iff "guess" stored, eq_iff "guess" "secret")

complete_sign_in-unknown_user_example :
    complete_sign_in
      (context_with lockout)
      (some alice)
      "guess"
      "alice"
      client
      CredentialDelivery.cookie
      (world with_account)
    ≡ complete_sign_in
        (context_with lockout)
        none
        "guess"
        "alice"
        client
        CredentialDelivery.cookie
        (world with_account)
unfolding get_account_for_user find provider_value
complete_sign_in-unknown_user_example =
    complete_sign_in-unknown_user (context_with lockout) "guess" "alice" client
      CredentialDelivery.cookie alice (world with_account) wrong_password

abbrev locked_world : World
locked_world = record (world with_account) { buckets = ("lockout:alice", failures) ∷ [] }

complete_sign_in-locked_example :
    (seconds : ℕ) × (complete_sign_in
        (context_with lockout)
        (some alice)
        "secret"
        "alice"
        client
        CredentialDelivery.cookie
        locked_world
      ≡ (err (account_locked seconds), record locked_world { ticks = 1 }))
unfolding is_refused_delivery get lockout_key
complete_sign_in-locked_example =
    complete_sign_in-locked (context_with lockout) "secret" "alice" client CredentialDelivery.cookie
      (some alice) locked_world refl refl refl
