-- ===== src/Security/Policy/Reading.antt =====
-- `PolicySessionStrategy.read` of src/fastauth/security/policy.py.
use fastauth.Prelude.{
  String, ◌≡◌, refl, ◌∙◌, ap, Bool, not, ◌&&◌, ◌||◌, Option, none, some, Bool-cases, inl, inr,
  if◌then◌else◌,
}
use fastauth.Domain.Models.{User}
use fastauth.Domain.Errors.{Result, ok, err, raise_if, ◌>>=◌, continue}
use fastauth.Memory.Invariant.Defs.{IsWellFormed}
use fastauth.Memory.Sessions.{get_session_by_token_hash}
use fastauth.Runtime.World.{External, World}
use fastauth.Security.Sessions.{SessionOptions, SessionContext}
use fastauth.Security.Sessions
use fastauth.Security.Sessions.Reading.{user_of, live_user, user_of-read}
use fastauth.Security.Policy.{authorize, check_age, ask_hook, screen, withheld, request_of, read}

-- The policy accepts a user: active, and verified where that is required.
abbrev pub accepted : SessionOptions → User → Bool
accepted config user = user.active && (not config.require_verified_user || user.email_verified)

abbrev pub accepted_user : SessionOptions → Option User → Option User
accepted_user config none = none
accepted_user config (some user) = if accepted config user then some user else none

abbrev accepted_answer : SessionOptions → Result (Option User) → Result (Option User)
accepted_answer config (ok user) = ok (accepted_user config user)
accepted_answer config (err e) = err e

module _ (external : External) (config : SessionOptions) where
  user_of-screen :
      (context : Option SessionContext) (w : World)
      → user_of (screen external config none context w).0
        ≡ accepted_answer config (user_of (ok context))
  unfolding screen authorize check_age ask_hook withheld request_of
  user_of-screen none w = refl
  user_of-screen (some context) w = elim (Bool-cases context.user.active) [
    | inl active ↦ elim (Bool-cases config.require_verified_user) [
      | inl required ↦ elim (Bool-cases context.user.email_verified) [
        | inl verified ↦ simp (active, required, verified, raise_if, ◌>>=◌, continue) refl
        | inr unverified ↦ simp (active, required, unverified, raise_if, ◌>>=◌, continue) refl
      ]
      | inr free ↦ simp (active, free, raise_if, ◌>>=◌, continue) refl
    ]
    | inr suspended ↦ simp (suspended, raise_if, ◌>>=◌, continue) refl
  ]

  user_of-continue-screen :
      (r : Result (Option SessionContext)) (w : World)
      → user_of (continue (screen external config none) (r, w)).0
        ≡ accepted_answer config (user_of r)
  user_of-continue-screen (ok context) w = user_of-screen context w
  user_of-continue-screen (err e) w = refl

  -- In a well-formed state and with no policy hook, reading a token under the policy answers with a
  -- user exactly if the token's hash names a stored session that has neither ended nor been idle too
  -- long at the time of the call, its user is stored and active, and verified where that is required;
  -- and then with that user. In every other case it answers with none; it never
  -- raises, also not the errors of the policy.
  pub user_of-policy_read :
      (token : String) (w : World)
      → IsWellFormed w.memory
      → user_of (read external config none token w).0
        ≡ ok (
            accepted_user config (
              live_user config
                (external.clock w.ticks)
                w.memory
                (get_session_by_token_hash (external.sha256 token) w.memory)))
  unfolding read
  user_of-policy_read token w wf =
      let (r, w') = Sessions.read external config token w in
      user_of-continue-screen r w'
      ∙ ap (accepted_answer config) (user_of-read external config token w wf)
