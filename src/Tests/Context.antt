-- ===== src/Tests/Context.antt =====
-- A concrete context of the flows, whose hash of a password is the password, and a state with accounts.
use fastauth.Prelude.{true, false, none, some, [], ◌∷◌, ◌==◌}
use fastauth.Dict.Tables.{IsTable-nil, put-IsTable}
use fastauth.Dict.{put}
use fastauth.Domain.Enums.{ProviderId}
use fastauth.Domain.Errors.{ok}
use fastauth.Domain.Events.{Client}
use fastauth.Domain.Models.{Account, RateLimit}
use fastauth.Flows.Context.{AuthContext, LinkOptions}
use fastauth.Memory.{Memory}
use fastauth.Memory.Invariant.Defs.{IsWellFormed, account_key}
use fastauth.Security.Lockout.{LockoutOptions}
use fastauth.Security.RateLimit.Shared.{RateLimitStorageKind}
use fastauth.Web.Callbacks.{BaseUrl}
use fastauth.Web.Csrf.{UrlTools, CsrfOptions}
use fastauth.Tests.Samples.{grant, with_token, with_token-IsWellFormed, external}

-- URLs of the host `app.test`, and of `*.app.test` and `api.app.test`, under https.
abbrev pub tools : UrlTools
tools = record {
  lower = λ s. s;
  upper = λ s. s;
  strip = λ s. s;
  urlparse = λ s. record { scheme = "https"; netloc = s };
  is_http_url = λ s. true;
  urlencode = λ params. "";
  quote = λ s. s;
}

abbrev pub csrf : CsrfOptions
csrf = record {
  enabled = true;
  trusted_origins = "*.app.test" ∷ [];
  require_origin = true;
  allow_relative_paths = false;
}

abbrev link : LinkOptions
link = record {
  expires_in = 1000;
  callback_path = "/link";
  callback_url_override = none;
  subject = "Link";
}

abbrev pub context_with : LockoutOptions → AuthContext
context_with lockout = record {
  external = external;
  tools = tools;
  hasher = record {
    hash = λ salt plain. plain;
    verify = λ plain hashed. plain == hashed;
    needs_rehash = λ hashed. false;
  };
  password = record { min_length = 1; max_length = 100 };
  session = record {
    require_verified_user = true;
    max_age_seconds = 3600;
    idle_timeout_seconds = none;
  };
  refresh_token = record { enabled = true; max_age_seconds = 3600; absolute_max_age = none };
  tracker = record { storage = RateLimitStorageKind.memory; lockout = lockout };
  policy_hook = none;
  hooks = record {
    before_create = [];
    after_create = [];
    before_update = [];
    after_update = [];
    before_delete = [];
    after_delete = [];
  };
  csrf = csrf;
  plugin_origins = [];
  base_url = BaseUrl.fixed "https://app.test";
  require_verified_for_sign_in = true;
  email_verification = link;
  password_reset = link;
  email_change = link;
  delete_account = link;
  email_password = none;
  render = λ template variables. ok ("html", "text");
  send = λ message w. (ok tt, w);
}

abbrev pub no_lockout : LockoutOptions
no_lockout = record { enabled = false; max_failures = 3; window_seconds = 60 }

abbrev pub lockout : LockoutOptions
lockout = record { enabled = true; max_failures = 3; window_seconds = 60 }

abbrev pub client : Client
client = record { ip_address = none; user_agent = none }

abbrev pub alice_account : Account
alice_account = record {
  id = "account";
  user_id = "alice";
  provider_id = ProviderId.credential;
  account_id = "alice";
  password = some "secret";
  access_token = none;
  refresh_token = none;
  access_token_expires_at = none;
  refresh_token_expires_at = none;
  scope = none;
  id_token = none;
  created_at = 1;
  updated_at = 1;
}

abbrev pub with_account : Memory
with_account = record (with_token grant) { accounts = ("account", alice_account) ∷ [] }

pub with_account-IsWellFormed : IsWellFormed with_account
unfolding put
with_account-IsWellFormed =
    let wf = with_token-IsWellFormed grant in
    record {
      users = wf.users;
      sessions = wf.sessions;
      accounts = put-IsTable account_key [] alice_account (IsTable-nil account_key);
      verifications = wf.verifications;
      api_keys = wf.api_keys;
      jwks_keys = wf.jwks_keys;
      rate_limits = wf.rate_limits;
      refresh_tokens = wf.refresh_tokens;
    }

-- Four failures of the identifier, in a window that is open at 100 microseconds.
abbrev pub failures : RateLimit
failures = record { id = "failures"; key = "lockout:alice"; count = 4; last_request_ms = 0 }
