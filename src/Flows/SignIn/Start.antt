-- ===== src/Flows/SignIn/Start.antt =====
-- That the session of a user who signs in is issued.
use fastauth.Prelude.{
  ◌+◌, ◌*◌, suc, String, ◌≡◌, refl, ap, ◌∙◌, Bool, true, false, not, ◌&&◌, ◌||◌, none, some, ◌∷◌,
  inl, inr, Bool-cases,
}
use fastauth.Dict.{Dict, get}
use fastauth.Domain.Errors.{ok, Exec}
use fastauth.Domain.Events.{Client, session_created, user_signed_in}
use fastauth.Domain.Models.{User, Session}
use fastauth.Flows.Context.{AuthContext, CredentialDelivery}
use fastauth.Flows.Credentials.{issue_refresh_token, maybe_issue_refresh_token, plain_of}
use fastauth.Flows.SignIn.{start_session}
use fastauth.Memory.Sessions.{create_session}
use fastauth.Memory.RefreshTokens.{create_refresh_token}
use fastauth.Memory.Users.{get_user_by_id}
use fastauth.Runtime.Returns.{Returns, continue-Returns}
use fastauth.Runtime.World.{World, utc_now, new_id, generate_pair, query, modify, publish}
use fastauth.Security.Policy.{
  PolicyRequest, authorize, check_age, ask_hook, check_issued_user, check_current,
}
use fastauth.Security.Policy
use fastauth.Security.RefreshTokens.{issue, issue_new, persist}
use fastauth.Security.Sessions.{SessionOptions, SessionContext}
use fastauth.Security.Sessions

-- Without a hook of the application, a user in good standing is authorized.
pub authorize-standing :
    (context : AuthContext) (request : PolicyRequest) (require_verified : Bool) (w : World)
    → context.policy_hook ≡ none
    → request.user.active ≡ true
    → (require_verified && not request.user.email_verified) ≡ false
    → authorize context.external context.session context.policy_hook request require_verified none w
      ≡ (ok tt, w)
unfolding authorize check_age ask_hook
authorize-standing context request require_verified w unhooked active verified =
    simp (unhooked, active, verified) refl

-- What stands before is done, and the users are as they were.
abbrev pub Keeps : {A : Type 0} → Exec World A → World → Type 0
Keeps m w = Returns (m w) w.memory.users

module _ (context : AuthContext) where
  issue_refresh_token-Returns :
      (issued : SessionContext) (user_id : String) (client : Client) (w : World)
      → Keeps (issue_refresh_token context issued user_id client) w
  unfolding issue_refresh_token issue issue_new persist generate_pair utc_now new_id modify
      create_refresh_token plain_of
  issue_refresh_token-Returns issued user_id client w =
      elim (Bool-cases context.refresh_token.enabled) [
        | inl on ↦ simp on (some (context.external.secret w.secrets), refl, refl)
        | inr off ↦ simp off (none, refl, refl)
      ]

  maybe_issue_refresh_token-Returns :
      (issued : SessionContext) (user_id : String) (delivery : CredentialDelivery) (client : Client)
      (w : World)
      → Keeps (maybe_issue_refresh_token context issued user_id delivery client) w
  unfolding maybe_issue_refresh_token
  maybe_issue_refresh_token-Returns issued user_id CredentialDelivery.cookie client w =
      (none, refl, refl)
  maybe_issue_refresh_token-Returns issued user_id (CredentialDelivery.bearer wanted) client w =
      elim (Bool-cases (not wanted || not context.refresh_token.enabled)) [
        | inl e ↦ simp e (none, refl, refl)
        | inr e ↦ simp e (issue_refresh_token-Returns issued user_id client w)
      ]

  -- The session of an active user is issued.
  create-Returns :
      (user : User) (client : Client) (w : World)
      → context.policy_hook ≡ none
      → user.active ≡ true
      → get w.memory.users user.id ≡ some user
      → Keeps (Policy.create context.external context.session context.policy_hook user client) w
  unfolding Policy.create Sessions.create Sessions.renew check_issued_user check_current
      generate_pair new_id utc_now modify create_session query get_user_by_id
  create-Returns user client w unhooked active there =
      let request : PolicyRequest = record {
        action = "session.issue";
        user = user;
        session = none;
        api_key = none;
      } in
      let session : Session = record {
        authenticated_at = some (context.external.clock w.ticks);
        id = context.external.fresh_id w.ids;
        user_id = user.id;
        token_hash = context.external.sha256 (context.external.secret w.secrets);
        expires_at =
            context.external.clock (suc w.ticks) + context.session.max_age_seconds * 1000000;
        ip_address = client.ip_address;
        user_agent = client.user_agent;
        created_at = context.external.clock (suc (suc w.ticks));
        updated_at = context.external.clock (suc (suc (suc w.ticks)));
      } in
      let issued : SessionContext = record {
        user = user;
        session = session;
        token = context.external.secret w.secrets;
      } in
      rw (authorize-standing context request false w unhooked active refl)
        (simp (there, active) (issued, refl, refl))

  pub start_session-Returns :
      (user : User) (client : Client) (delivery : CredentialDelivery) (w : World)
      (users : Dict User)
      → context.policy_hook ≡ none
      → user.active ≡ true
      → get users user.id ≡ some user
      → w.memory.users ≡ users
      → Returns (start_session context user client delivery w) users
  unfolding start_session publish
  start_session-Returns user client delivery w users unhooked active there same =
      let create = Policy.create context.external context.session context.policy_hook user client in
      let made =
        create-Returns user client w unhooked active (ap (λ d. get d user.id) same ∙ there) in
      continue-Returns _ (create w) users (made.0, made.1, made.2 ∙ same)
        (λ issued v kept.
          let v' = record v {
            published =
                session_created user.id issued.session.id client
                ∷ user_signed_in user.id user.email client
                ∷ v.published;
          } in
          continue-Returns _ (maybe_issue_refresh_token context issued user.id delivery client v')
            users
            (let t = maybe_issue_refresh_token-Returns issued user.id delivery client v' in
              (t.0, t.1, t.2 ∙ kept))
            (λ token u stays. (_, refl, stays)))
