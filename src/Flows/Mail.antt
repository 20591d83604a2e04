-- ===== src/Flows/Mail.antt =====
-- What the flows of src/fastauth/flows share that mail a link or use the token of one: the challenge,
-- the link, the message, and `consume_token` of src/fastauth/flows/challenges.py.
pub mod Tokens
use fastauth.Prelude.{
  ℕ, ◌+◌, ◌/◌, max, String, true, ◌||◌, Option, none, some, [], ◌∷◌, ◌++◌, ◌==◌, if◌then◌else◌,
}
use fastauth.Dict.{Dict}
use fastauth.Domain.Enums.{VerificationPurpose}
use fastauth.Domain.Errors.{
  Result, ok, err, Exec, pure, raise, returned, ◌>>=◌, token_invalid, token_expired, value_error,
}
use fastauth.Domain.Models.{Verification}
use fastauth.Flows.Context.{AuthContext, EmailMessageKind, EmailMessage, LinkOptions, Variable}
use fastauth.Memory.Verifications.{create_verification, attempt_verification}
use fastauth.Runtime.World.{World, utc_now, new_id, modify, attempt_call}
use fastauth.Storage.Verification.{AttemptStatus}
use fastauth.Web.Callbacks.{validate_callback_url, build_callback_url}

-- `max(1, int(expires_in.total_seconds() // 60))`
unfoldable pub ttl_minutes : ℕ → ℕ
ttl_minutes expires_in = max 1 (expires_in / 60000000)

-- `EmailMessage(...)`: pydantic refuses an empty subject, HTML or text.
unfoldable pub email_message :
    EmailMessageKind → String → String → String × String → Result EmailMessage
email_message kind to subject (html, text) =
    if subject == "" || html == "" || text == ""
    then err value_error
    else ok (record { kind = kind; to = to; subject = subject; html = html; text = text })

module _ (context : AuthContext) where
  -- `create_verification(Verification(...))`
  unfoldable pub issue_challenge : String → String → VerificationPurpose → ℕ → Exec World (Unit {0})
  issue_challenge identifier value_hash purpose expires_in = do
    now ← utc_now context.external
    id ← new_id context.external
    created_at ← utc_now context.external
    updated_at ← utc_now context.external
    let row : Verification = record {
      id = id;
      identifier = identifier;
      value_hash = value_hash;
      purpose = purpose;
      expires_at = now + expires_in;
      attempt_count = 0;
      consumed_at = none;
      created_at = created_at;
      updated_at = updated_at;
    }
    modify (create_verification row)

  -- The redirect that the client asks for.
  unfoldable pub redirect_of : Option String → Exec World (Option String)
  redirect_of redirect_url = returned (
      validate_callback_url context.tools redirect_url
        (context.csrf.trusted_origins ++ context.plugin_origins) context.csrf.allow_relative_paths)

  unfoldable pub base_of : Option String → LinkOptions → Exec World String
  base_of app_base_url options = returned (
      build_callback_url app_base_url context.base_url options.callback_path
        options.callback_url_override)

  -- The template is rendered and the message sent.
  unfoldable pub send_template :
      String → Dict Variable → EmailMessageKind → String → String → Exec World (Unit {0})
  send_template template variables kind to subject = do
    rendered ← returned (context.render template variables)
    message ← returned (email_message kind to subject rendered)
    context.send message

  unfoldable pub accepted_row : Option Verification → Exec World Verification
  accepted_row none = raise token_invalid
  accepted_row (some row) = pure row

  -- What `consume_token` makes of the result of the attempt.
  unfoldable pub by_status : AttemptStatus → Option Verification → Exec World Verification
  by_status AttemptStatus.accepted row = accepted_row row
  by_status AttemptStatus.expired row = raise token_expired
  by_status AttemptStatus.invalid row = raise token_invalid
  by_status AttemptStatus.exhausted row = raise token_invalid
  by_status AttemptStatus.absent row = raise token_invalid

  unfoldable pub consume_token : String → VerificationPurpose → String → Exec World Verification
  consume_token identifier purpose value_hash = do
    now ← utc_now context.external
    result ← attempt_call (attempt_verification identifier purpose value_hash now none true)
    by_status result.status result.verification

-- `params` with the redirect, if there is one.
unfoldable pub with_redirect : Dict String → Option String → Dict String
with_redirect params none = params
with_redirect params (some redirect_url) = params ++ (("redirect_url", redirect_url) ∷ [])
