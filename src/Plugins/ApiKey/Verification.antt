-- ===== src/Plugins/ApiKey/Verification.antt =====
-- What the verification of an API key tells of the stored key.
use fastauth.Prelude.{
  String, ◌≡◌, refl, subst, true, false, not, ◌&&◌, Option, none, some, List, inl, inr, Bool-cases,
  Option-cases, arith, take_text,
}
use fastauth.Dict.{Dict}
use fastauth.Domain.Errors.{policy_denied, email_not_verified, Result, ok, err}
use fastauth.Domain.Models.{User, ApiKey}
use fastauth.Flows.Context.{AuthContext}
use fastauth.Memory.{Memory}
use fastauth.Memory.ApiKeys.{get_api_key_by_hash}
use fastauth.Memory.Users.{get_user_by_id}
use fastauth.Plugins.ApiKey.{
  ApiKeyOptions, VerifyError, VerifyResponse, authorize_verify, authorize_key, after_policy,
  check_owner, verify_found, verify_plain, verify_key, split_api_key,
}
use fastauth.Plugins.ApiKey.Encoding.{split_api_key-append}
use Prim.Native.String.{◌++◌}
use fastauth.Runtime.World.{World, query}
use fastauth.Security.Policy.{PolicyRequest}
use fastauth.Security.Policy.Standing.{authorize-ok, KeepsClock, authorize-ticks}
use fastauth.Plugins.ApiKey.Checks.{
  IsAdmitted, Passes, Passes-IsAdmitted, refuse-invalid, check_key-Passes,
}

-- The key is the stored one of the secret, it is enabled, and its owner is there and in good standing.
abbrev pub IsStored : AuthContext → ApiKeyOptions → String → ApiKey → Memory → Type 0
IsStored context options plain key m =
    (get_api_key_by_hash (context.external.sha256 plain) m ≡ some key)
    × (key.enabled ≡ true)
    × ((user : User) × (get_user_by_id key.user_id m ≡ some user)
        × (user.active ≡ true)
        × ((options.require_verified_user && not user.email_verified) ≡ false))

module _ (context : AuthContext) (options : ApiKeyOptions) (identifier : String)
    (wanted : Option (Dict (List String))) (k : ApiKey) where
  after_policy-Passes :
      (key : ApiKey) (r : Result (Unit {0})) (w : World)
      → (after_policy context options identifier wanted key r w).0 ≡ ok (VerifyResponse.valid k)
      → (r ≡ ok tt) × Passes wanted key (context.external.clock w.ticks) k
  unfolding after_policy
  after_policy-Passes key (ok u) w h =
      (refl, check_key-Passes context options identifier wanted k key w h)
  after_policy-Passes key (err policy_denied) w h =
      absurd
        (refuse-invalid context options identifier wanted k (VerifyError.denied policy_denied) w h)
  after_policy-Passes key (err email_not_verified) w h = absurd (
      refuse-invalid context options identifier wanted k (VerifyError.denied email_not_verified) w
        h)
  after_policy-Passes key (err e) w h = ground arith

  authorize_verify-ok :
      (key : ApiKey) (found : Option User) (w : World)
      → (authorize_verify context options key found w).0 ≡ ok tt
      → (user : User) × (found ≡ some user)
        × (user.active ≡ true)
        × ((options.require_verified_user && not user.email_verified) ≡ false)
  unfolding authorize_verify authorize_key
  authorize_verify-ok key none w h = ground arith
  authorize_verify-ok key (some user) w h =
      let request : PolicyRequest = record {
        action = "api_key.verify";
        user = user;
        session = none;
        api_key = some key;
      } in
      let (active, verified) =
        authorize-ok context.external context.session context.policy_hook request
          options.require_verified_user w tt h in
      (user, refl, active, verified)

  authorize_verify-ticks :
      (key : ApiKey) (found : Option User) (w : World)
      → KeepsClock context.policy_hook
      → (authorize_verify context options key found w).1.ticks ≡ w.ticks
  unfolding authorize_verify authorize_key
  authorize_verify-ticks key none w keeps = refl
  authorize_verify-ticks key (some user) w keeps =
      let request : PolicyRequest = record {
        action = "api_key.verify";
        user = user;
        session = none;
        api_key = some key;
      } in
      authorize-ticks context.external context.session context.policy_hook request
        options.require_verified_user w keeps

  verify_found-Passes :
      (plain : String) (found : Option ApiKey) (w : World)
      → KeepsClock context.policy_hook
      → get_api_key_by_hash (context.external.sha256 plain) w.memory ≡ found
      → (verify_found context options identifier wanted found w).0 ≡ ok (VerifyResponse.valid k)
      → (key : ApiKey) × IsStored context options plain key w.memory
        × Passes wanted key (context.external.clock w.ticks) k
  unfolding verify_found check_owner
  verify_found-Passes plain none w keeps there h =
      absurd (refuse-invalid context options identifier wanted k VerifyError.invalid_key w h)
  verify_found-Passes plain (some key) w keeps there h = elim (Bool-cases key.enabled) [
    | inl enabled ↦
        let owner = get_user_by_id key.user_id w.memory in
        let asked = authorize_verify context options key owner w in
        let (passed, admitted) = after_policy-Passes key asked.0 asked.1 (simp enabled at h) in
        (
          key,
          (there, enabled, authorize_verify-ok key owner w passed),
          subst (λ t. Passes wanted key (context.external.clock t) k)
              (authorize_verify-ticks key owner w keeps) admitted,
        )
    | inr off ↦ absurd (
        refuse-invalid context options identifier wanted k VerifyError.invalid_key w
          (simp off at h))
  ]

-- Where the hook of the application does not read the clock, let a verification find an API key valid.
-- Then the text is the prefix and a secret, and a key is stored under the hash of that secret that is
-- enabled, and that belongs to an active user, whose email is verified if the options require that. At
-- the first reading of the clock the key has not expired. It has every permission that was asked for,
-- its quota, refilled if that was due, is not used up, and the quota that is returned is one less.
pub verify_key-IsAdmitted :
    (context : AuthContext) (options : ApiKeyOptions) (value : String)
    (wanted : Option (Dict (List String))) (w : World) (k : ApiKey)
    → KeepsClock context.policy_hook
    → (verify_key context options value wanted w).0 ≡ ok (VerifyResponse.valid k)
    → (plain : String) × (key : ApiKey) × (options.default_prefix ++ plain ≡ value)
      × IsStored context options plain key w.memory
      × IsAdmitted wanted key (context.external.clock w.ticks) k
unfolding verify_key verify_plain query
verify_key-IsAdmitted context options value wanted w k keeps h =
    elim (Option-cases (split_api_key value options.default_prefix)) [
      | inl foreign ↦ absurd (
          refuse-invalid context options (take_text 8 value) wanted k VerifyError.invalid_key w
            (simp foreign at h))
      | inr (plain, split) ↦
          let found = get_api_key_by_hash (context.external.sha256 plain) w.memory in
          let (key, stored, passes) =
            verify_found-Passes context options (take_text 8 value) wanted k plain found w keeps
              refl (simp split at h) in
          (
            plain,
            key,
            split_api_key-append value options.default_prefix plain split,
            stored,
            Passes-IsAdmitted wanted key (context.external.clock w.ticks) k passes,
          )
    ]
