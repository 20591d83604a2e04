-- ===== src/Flows/Context.antt =====
-- `AuthContext` of src/fastauth/runtime/context.py, as far as the flows read it, with the delivery of
-- credentials of src/fastauth/api/commands.py and the plugin options of
-- src/fastauth/plugins/email_password.py. Templates, the sending of mail, the hooks and the handlers of
-- the application are parameters.
use fastauth.Prelude.{ℕ, String, Bool, Option, List}
use fastauth.Dict.{Dict}
use fastauth.Domain.Errors.{Result, Exec}
use fastauth.Runtime.World.{External, World}
use fastauth.Security.Passwords.{PasswordHasher, PasswordOptions}
use fastauth.Security.Policy.{PolicyRequest, UserHooks}
use fastauth.Security.RefreshTokens.{RefreshTokenOptions}
use fastauth.Security.Sessions.{SessionOptions}
use fastauth.Security.Tracker.{TrackerOptions}
use fastauth.Web.Callbacks.{BaseUrl}
use fastauth.Web.Csrf.{UrlTools, CsrfOptions}

pub record EmailPasswordOptions : Type 0 where
  pub allow_username_sign_in : Bool
  pub require_username : Bool
  pub allow_username_change : Bool
  pub allow_bearer_tokens : Bool

pub data EmailMessageKind : Type 0 where
  verification password_reset account_deletion : EmailMessageKind

-- The message is built from what the template makes of its variables.
pub record EmailMessage : Type 0 where
  pub kind : EmailMessageKind
  pub to : String
  pub subject : String
  pub html : String
  pub text : String

-- The options of a flow that mails a link; `expires_in` is in microseconds.
pub record LinkOptions : Type 0 where
  pub expires_in : ℕ
  pub callback_path : String
  pub callback_url_override : Option String
  pub subject : String

-- A variable of a template.
pub data Variable : Type 0 where
  text : String → Variable
  optional : Option String → Variable
  number : ℕ → Variable

pub record AuthContext : Type 0 where
  pub external : External
  pub tools : UrlTools
  pub hasher : PasswordHasher
  pub password : PasswordOptions
  pub session : SessionOptions
  pub refresh_token : RefreshTokenOptions
  pub tracker : TrackerOptions
  pub policy_hook : Option (PolicyRequest → Exec World Bool)
  pub hooks : UserHooks
  pub csrf : CsrfOptions
  pub plugin_origins : List String
  pub base_url : BaseUrl
  pub require_verified_for_sign_in : Bool
  pub email_verification : LinkOptions
  pub password_reset : LinkOptions
  pub email_change : LinkOptions
  pub delete_account : LinkOptions
  pub email_password : Option EmailPasswordOptions
  pub render : String → Dict Variable → Result (String × String)
  pub send : EmailMessage → Exec World (Unit {0})

-- How a response carries the tokens.
pub data CredentialDelivery : Type 0 where
  cookie : CredentialDelivery
  bearer : Bool → CredentialDelivery
