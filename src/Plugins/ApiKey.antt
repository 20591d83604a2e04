-- ===== src/Plugins/ApiKey.antt =====
-- src/fastauth/plugins/api_key.py, over the in-memory adapter, which is an `ApiKeyStore`. Durations are
-- in microseconds. The views of a key that the source returns leave out its hash.
pub mod Encoding
pub mod Verification
pub mod Admission
pub mod Checks
use fastauth.Prelude.{
  ℕ, suc, ◌+◌, ◌-◌, ◌*◌, ◌/◌, String, Bool, true, false, not, ◌&&◌, ◌||◌, Option, none, some, List,
  [], ◌∷◌, ◌==◌, is_some, any, contains, leb, ltb, starts_with, drop_text, take_text, if◌then◌else◌,
}
use fastauth.Dict.{Dict, get}
use fastauth.Domain.Errors.{
  FastAuthError, Result, ok, err, Exec, pure, raise, ◌>>=◌, ◌>>◌, raise_if, not_found,
  policy_denied, email_not_verified,
}
use fastauth.Domain.Events.{api_key_created, api_key_revoked, api_key_verify_failed}
use fastauth.Domain.Models.{User, ApiKey}
use fastauth.Flows.Context.{AuthContext}
use fastauth.Memory.ApiKeys.{
  create_api_key, get_api_key_by_hash, get_api_key_by_id, update_api_key, delete_api_key,
}
use fastauth.Memory.Users.{get_user_by_id}
use fastauth.Runtime.World.{
  World, utc_now, new_id, generate_pair, query, modify, attempt_call, publish,
}
use fastauth.Security.Policy.{PolicyRequest, authorize}
use fastauth.Security.RateLimit.Shared.{rate_storage}
use Prim.Native.String.{◌++◌, count}

pub record ApiKeyOptions : Type 0 where
  pub require_verified_user : Bool
  pub default_prefix : String
  pub default_remaining : Option ℕ
  pub default_rate_limit_max : Option ℕ
  pub default_rate_limit_window : Option ℕ
  pub default_expires_in : Option ℕ

pub record CreateApiKeyRequest : Type 0 where
  pub name : String
  pub remaining : Option ℕ
  pub refill_amount : Option ℕ
  pub refill_interval : Option ℕ
  pub rate_limit_max : Option ℕ
  pub rate_limit_window : Option ℕ
  pub expires_in : Option ℕ
  pub metadata : String
  pub permissions : Dict (List String)

pub record UpdateApiKeyRequest : Type 0 where
  pub id : String
  pub name : Option String
  pub enabled : Option Bool
  pub metadata : Option String
  pub permissions : Option (Dict (List String))

-- The codes of `VerifyApiKeyError`.
pub data VerifyError : Type 0 where
  invalid_key expired rate_limited insufficient_permissions exhausted : VerifyError
  denied : FastAuthError → VerifyError

pub data VerifyResponse : Type 0 where
  valid : ApiKey → VerifyResponse
  invalid : VerifyError → VerifyResponse

unfoldable pub encode_api_key : String → String → String
encode_api_key prefix plain = prefix ++ plain

unfoldable pub split_api_key : String → String → Option String
split_api_key value prefix =
    if not (starts_with value prefix) then none else some (drop_text (count prefix) value)

-- `a or b` on durations and maxima, which are positive where they are set, and
-- `a if a is not None else b`.
unfoldable pub or_default : Option ℕ → Option ℕ → Option ℕ
or_default none b = b
or_default (some a) b = some a

unfoldable pub to_ms : Option ℕ → Option ℕ
to_ms none = none
to_ms (some duration) = some (duration / 1000)

unfoldable pub expiry : ℕ → Option ℕ → Option ℕ
expiry now none = none
expiry now (some duration) = some (now + duration)

-- `api_key.expires_at is not None and api_key.expires_at < now`
unfoldable pub is_past : Option ℕ → ℕ → Bool
is_past none now = false
is_past (some expires_at) now = ltb expires_at now

-- `api_key.permissions.get(resource, [])`
abbrev pub held_by : Option (List String) → List String
held_by none = []
held_by (some held) = held

-- Some action on some resource is not granted.
unfoldable pub lacks : Dict (List String) → Dict (List String) → Bool
lacks granted [] = false
lacks granted ((resource, actions) ∷ wanted) =
    let rest = lacks granted wanted in
    let held = held_by (get granted resource) in
    any (λ action. not (contains action held)) actions || rest

unfoldable pub lacks_wanted : Dict (List String) → Option (Dict (List String)) → Bool
lacks_wanted granted none = false
lacks_wanted granted (some wanted) = lacks granted wanted

-- The quota starts anew where its interval has passed.
unfoldable pub refill_due : ℕ → ApiKey → ℕ → ℕ → ℕ → ApiKey
refill_due now key amount interval_ms last =
    if leb (last + interval_ms * 1000) now
    then record key { remaining = some amount; last_refill_at = some now }
    else key

unfoldable pub refill_from : ℕ → ApiKey → Option ℕ → Option ℕ → Option ℕ → ApiKey
refill_from now key none interval_ms last = key
refill_from now key (some amount) none last = key
refill_from now key (some amount) (some interval_ms) none = key
refill_from now key (some amount) (some interval_ms) (some last) =
    refill_due now key amount interval_ms last

unfoldable pub refill : ℕ → ApiKey → ApiKey
refill now key = refill_from now key key.refill_amount key.refill_interval_ms key.last_refill_at

-- `api_key.request_count += 1` and `api_key.last_request_at = now`
unfoldable pub counted : ℕ → ApiKey → ApiKey
counted now key = record key { request_count = key.request_count + 1; last_request_at = some now }

module _ (context : AuthContext) (options : ApiKeyOptions) where
  unfoldable pub authorize_key : String → ApiKey → User → Exec World (Unit {0})
  authorize_key action key user =
      authorize context.external context.session context.policy_hook
        (record { action = action; user = user; session = none; api_key = some key })
        options.require_verified_user none

  -- The owner must exist and be authorized.
  unfoldable pub authorize_owner : String → ApiKey → Option User → Exec World (Unit {0})
  authorize_owner action key none = raise (not_found "user")
  authorize_owner action key (some user) = authorize_key action key user

  unfoldable pub new_key : String → CreateApiKeyRequest → String → Exec World ApiKey
  new_key user_id body key_hash = do
    now ← utc_now context.external
    id ← new_id context.external
    created_at ← utc_now context.external
    updated_at ← utc_now context.external
    let rate_limit_max = or_default body.rate_limit_max options.default_rate_limit_max
    let rate_limit_window = or_default body.rate_limit_window options.default_rate_limit_window
    let key : ApiKey = record {
      id = id;
      user_id = user_id;
      name = body.name;
      key_hash = key_hash;
      key_prefix = options.default_prefix;
      enabled = true;
      expires_at = expiry now (or_default body.expires_in options.default_expires_in);
      remaining = or_default body.remaining options.default_remaining;
      refill_amount = body.refill_amount;
      refill_interval_ms = to_ms body.refill_interval;
      rate_limit_enabled = is_some rate_limit_max;
      rate_limit_max = rate_limit_max;
      rate_limit_window_ms = to_ms rate_limit_window;
      last_refill_at =
          if is_some body.refill_amount && is_some body.refill_interval then some now else none;
      last_request_at = none;
      request_count = 0;
      metadata = body.metadata;
      permissions = body.permissions;
      created_at = created_at;
      updated_at = updated_at;
    }
    pure key

  -- The key as the user gets to see it, once.
  unfoldable pub create_for_user : String → CreateApiKeyRequest → Exec World (ApiKey × String)
  create_for_user user_id body = do
    pair ← generate_pair context.external
    key ← new_key user_id body pair.hashed
    user ← query (get_user_by_id user_id)
    authorize_owner "api_key.create" key user
    modify (create_api_key key)
    publish (api_key_created user_id key.id)
    pure (key, encode_api_key options.default_prefix pair.plain)

  unfoldable pub refuse : String → VerifyError → Exec World VerifyResponse
  refuse identifier e =
      publish (api_key_verify_failed (some identifier)) >> pure (VerifyResponse.invalid e)

  unfoldable pub store_counted : ApiKey → ℕ → Exec World (Unit {0})
  store_counted key now = do
    written ← utc_now context.external
    _ ← attempt_call (update_api_key written (counted now key))
    pure tt

  unfoldable pub refuse_counted : String → ApiKey → ℕ → VerifyError → Exec World VerifyResponse
  refuse_counted identifier key now e = store_counted key now >> refuse identifier e

  unfoldable pub accept : ApiKey → ℕ → Exec World VerifyResponse
  accept key now = store_counted key now >> pure (VerifyResponse.valid (counted now key))

  unfoldable pub spend : String → ApiKey → ℕ → Option ℕ → Exec World VerifyResponse
  spend identifier key now none = accept key now
  spend identifier key now (some remaining) =
      if leb remaining 0
      then refuse_counted identifier key now VerifyError.exhausted
      else accept (record key { remaining = some (remaining - 1) }) now

  -- The rest of a verification, on the key with its quota refilled.
  unfoldable pub check_quota :
      String → Option (Dict (List String)) → ApiKey → ℕ → Exec World VerifyResponse
  check_quota identifier wanted key now =
      if lacks_wanted key.permissions wanted
      then refuse identifier VerifyError.insufficient_permissions
      else spend identifier key now key.remaining

  unfoldable pub count_request : String → ℕ → ℕ → ℕ → String → World → Result Bool × World
  count_request key_id maximum window_ms now_ms row_id w =
      let ((hits, start), w') =
        (rate_storage context.tracker.storage).increment row_id ("api-key:" ++ key_id) window_ms
          now_ms w in
      (ok (ltb maximum hits), w')

  unfoldable pub over_maximum : String → ℕ → ℕ → Exec World Bool
  over_maximum key_id maximum window_ms = do
    now ← utc_now context.external
    row_id ← new_id context.external
    count_request key_id maximum window_ms (now / 1000) row_id

  -- Whether this request is past the maximum of the key's own rate limit, where it has one.
  unfoldable pub over_limit : String → Bool → Option ℕ → Option ℕ → Exec World Bool
  over_limit key_id false maximum window_ms = pure false
  over_limit key_id true none window_ms = pure false
  over_limit key_id true (some maximum) none = pure false
  over_limit key_id true (some maximum) (some window_ms) = over_maximum key_id maximum window_ms

  unfoldable pub check_limit :
      String → Option (Dict (List String)) → ApiKey → ℕ → Exec World VerifyResponse
  check_limit identifier wanted key now = do
    over ← over_limit key.id key.rate_limit_enabled key.rate_limit_max key.rate_limit_window_ms
    if over
        then refuse_counted identifier key now VerifyError.rate_limited
        else check_quota identifier wanted (refill now key) now

  unfoldable pub check_key :
      String → Option (Dict (List String)) → ApiKey → Exec World VerifyResponse
  check_key identifier wanted key = do
    now ← utc_now context.external
    if is_past key.expires_at now
        then refuse identifier VerifyError.expired
        else check_limit identifier wanted key now

  -- `raise PolicyDeniedError` where the owner is gone.
  unfoldable pub authorize_verify : ApiKey → Option User → Exec World (Unit {0})
  authorize_verify key none = raise policy_denied
  authorize_verify key (some user) = authorize_key "api_key.verify" key user

  -- Two errors of the policy are caught.
  unfoldable pub after_policy :
      String → Option (Dict (List String)) → ApiKey → Result (Unit {0}) → Exec World VerifyResponse
  after_policy identifier wanted key (ok _) = check_key identifier wanted key
  after_policy identifier wanted key (err policy_denied) =
      refuse identifier (VerifyError.denied policy_denied)
  after_policy identifier wanted key (err email_not_verified) =
      refuse identifier (VerifyError.denied email_not_verified)
  after_policy identifier wanted key (err e) = raise e

  unfoldable pub check_owner :
      String → Option (Dict (List String)) → ApiKey → Exec World VerifyResponse
  check_owner identifier wanted key w =
      let (r, w') = authorize_verify key (get_user_by_id key.user_id w.memory) w in
      after_policy identifier wanted key r w'

  unfoldable pub verify_found :
      String → Option (Dict (List String)) → Option ApiKey → Exec World VerifyResponse
  verify_found identifier wanted none = refuse identifier VerifyError.invalid_key
  verify_found identifier wanted (some key) =
      if not key.enabled
      then refuse identifier VerifyError.invalid_key
      else check_owner identifier wanted key

  unfoldable pub verify_plain :
      String → Option (Dict (List String)) → Option String → Exec World VerifyResponse
  verify_plain identifier wanted none = refuse identifier VerifyError.invalid_key
  verify_plain identifier wanted (some plain) = do
    key ← query (get_api_key_by_hash (context.external.sha256 plain))
    verify_found identifier wanted key

  unfoldable pub verify_key : String → Option (Dict (List String)) → Exec World VerifyResponse
  verify_key value wanted =
      verify_plain (take_text 8 value) wanted (split_api_key value options.default_prefix)

  -- A key of another user is not found.
  unfoldable pub owned : String → Option ApiKey → Exec World ApiKey
  owned user_id none = raise (not_found "api_key")
  owned user_id (some key) =
      if key.user_id == user_id then pure key else raise (not_found "api_key")

  unfoldable pub changed : UpdateApiKeyRequest → ApiKey → ApiKey
  changed body key = record key {
    name = elim body.name [ none ↦ key.name | some name ↦ name ];
    enabled = elim body.enabled [ none ↦ key.enabled | some enabled ↦ enabled ];
    metadata = elim body.metadata [ none ↦ key.metadata | some metadata ↦ metadata ];
    permissions = elim body.permissions [ none ↦ key.permissions | some permissions ↦ permissions ];
  }

  unfoldable pub update_for_user : String → UpdateApiKeyRequest → Exec World ApiKey
  update_for_user user_id body = do
    found ← query (get_api_key_by_id body.id)
    key ← owned user_id found
    user ← query (get_user_by_id user_id)
    authorize_owner "api_key.update" (changed body key) user
    written ← utc_now context.external
    _ ← attempt_call (update_api_key written (changed body key))
    pure (changed body key)

  unfoldable pub delete_for_user : String → String → Exec World (Unit {0})
  delete_for_user user_id key_id = do
    found ← query (get_api_key_by_id key_id)
    key ← owned user_id found
    modify (delete_api_key key.id)
    publish (api_key_revoked user_id key.id)
