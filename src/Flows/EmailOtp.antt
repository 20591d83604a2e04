-- ===== src/Flows/EmailOtp.antt =====
-- src/fastauth/flows/email_otp.py: the codes, with the options of
-- src/fastauth/plugins/email_otp_options.py.
pub mod SignIn
pub mod Changes
use fastauth.Prelude.{
  ℕ, ◌/◌, max, String, Bool, true, false, Option, none, some, [], ◌∷◌, if◌then◌else◌,
}
use fastauth.Dict.{Dict}
use fastauth.Domain.Enums.{VerificationPurpose, purpose_value}
use fastauth.Domain.Errors.{Exec, pure, raise, ◌>>=◌, ◌>>◌, token_invalid, token_expired}
use fastauth.Domain.Events.{
  Client, otp_generated, otp_requested, otp_verify_failed, email_verification_sent,
}
use fastauth.Domain.Models.{User, Verification}
use fastauth.Flows.Context.{AuthContext, EmailMessageKind, Variable}
use fastauth.Flows.Mail.{issue_challenge, send_template}
use fastauth.Memory.Users.{get_user_by_email}
use fastauth.Memory.Verifications.{attempt_verification}
use fastauth.Runtime.World.{World, utc_now, query, attempt_call, publish}
use fastauth.Security.Otp.{Digit, generate_pair}
use fastauth.Security.Tracker
use fastauth.Storage.Verification.{AttemptStatus, VerificationAttempt}

-- `EmailOtpOptions` and `EmailChangeOtpOptions`; `expires_in` is in microseconds.
pub record EmailOtpOptions : Type 0 where
  pub code_length : ℕ
  pub expires_in : ℕ
  pub max_attempts : ℕ
  pub allow_sign_up : Bool
  pub change_enabled : Bool
  pub verify_current_email : Bool

-- The purposes that codes are issued for; a client asks for one of the first three.
pub data OtpPurpose : Type 0 where
  sign_in verification password_reset email_change : OtpPurpose

unfoldable pub purpose_of : OtpPurpose → VerificationPurpose
purpose_of OtpPurpose.sign_in = VerificationPurpose.email_otp_sign_in
purpose_of OtpPurpose.verification = VerificationPurpose.email_otp_verification
purpose_of OtpPurpose.password_reset = VerificationPurpose.email_otp_password_reset
purpose_of OtpPurpose.email_change = VerificationPurpose.email_otp_email_change

pub data EmailOtpPurpose : Type 0 where
  sign_in email_verification password_reset : EmailOtpPurpose

unfoldable pub purpose_for_kind : EmailOtpPurpose → OtpPurpose
purpose_for_kind EmailOtpPurpose.sign_in = OtpPurpose.sign_in
purpose_for_kind EmailOtpPurpose.email_verification = OtpPurpose.verification
purpose_for_kind EmailOtpPurpose.password_reset = OtpPurpose.password_reset

unfoldable pub template_of : OtpPurpose → String
template_of OtpPurpose.sign_in = "otp_sign_in"
template_of OtpPurpose.verification = "otp_verification"
template_of OtpPurpose.password_reset = "otp_password_reset"
template_of OtpPurpose.email_change = "otp_email_change"

unfoldable pub kind_of : OtpPurpose → EmailMessageKind
kind_of OtpPurpose.sign_in = EmailMessageKind.verification
kind_of OtpPurpose.verification = EmailMessageKind.verification
kind_of OtpPurpose.password_reset = EmailMessageKind.password_reset
kind_of OtpPurpose.email_change = EmailMessageKind.verification

unfoldable pub subject_for_purpose : AuthContext → OtpPurpose → String
subject_for_purpose context OtpPurpose.sign_in = "Your sign-in code"
subject_for_purpose context OtpPurpose.verification = context.email_verification.subject
subject_for_purpose context OtpPurpose.password_reset = context.password_reset.subject
subject_for_purpose context OtpPurpose.email_change = context.email_change.subject

-- `user_name or ""`
unfoldable pub or_empty : Option String → String
or_empty none = ""
or_empty (some name) = name

module _ (context : AuthContext) (config : EmailOtpOptions) where
  -- The retry time that the tracker returns is not used.
  unfoldable pub feed_failure : Bool → String → Exec World (Unit {0})
  feed_failure false identifier = pure tt
  feed_failure true identifier = do
    _ ← Tracker.record_failure context.external context.tracker identifier
    pure tt

  unfoldable pub feed_success : Bool → String → Exec World (Unit {0})
  feed_success false identifier = pure tt
  feed_success true identifier = Tracker.reset context.external context.tracker identifier

  unfoldable pub otp_error : AttemptStatus → Exec World Verification
  otp_error AttemptStatus.expired = raise token_expired
  otp_error AttemptStatus.accepted = raise token_invalid
  otp_error AttemptStatus.invalid = raise token_invalid
  otp_error AttemptStatus.exhausted = raise token_invalid
  otp_error AttemptStatus.absent = raise token_invalid

  unfoldable pub refuse_otp :
      String → OtpPurpose → Bool → VerificationAttempt → Exec World Verification
  refuse_otp identifier purpose feed_lockout result = do
    feed_failure feed_lockout identifier
    publish (otp_verify_failed identifier (purpose_value (purpose_of purpose)) result.attempt_count)
    otp_error result.status

  unfoldable pub accept_otp : String → Bool → Verification → Exec World Verification
  accept_otp identifier feed_lockout row = feed_success feed_lockout identifier >> pure row

  -- The challenge, where the attempt was accepted.
  unfoldable pub accepted_row : AttemptStatus → Option Verification → Option Verification
  accepted_row AttemptStatus.accepted row = row
  accepted_row AttemptStatus.invalid row = none
  accepted_row AttemptStatus.expired row = none
  accepted_row AttemptStatus.exhausted row = none
  accepted_row AttemptStatus.absent row = none

  unfoldable pub judge_otp :
      String
      → OtpPurpose
      → Bool
      → VerificationAttempt
      → Option Verification
      → Exec World Verification
  judge_otp identifier purpose feed_lockout result none =
      refuse_otp identifier purpose feed_lockout result
  judge_otp identifier purpose feed_lockout result (some row) =
      accept_otp identifier feed_lockout row

  unfoldable pub consume_otp : String → OtpPurpose → String → Bool → Exec World Verification
  consume_otp identifier purpose plain_otp feed_lockout = do
    now ← utc_now context.external
    result ← attempt_call (
        attempt_verification identifier (purpose_of purpose) (context.external.sha256 plain_otp) now
          (some config.max_attempts) true)
    judge_otp identifier purpose feed_lockout result
        (accepted_row result.status result.verification)

  unfoldable pub check_status : AttemptStatus → Exec World (Unit {0})
  check_status AttemptStatus.accepted = pure tt
  check_status AttemptStatus.expired = raise token_expired
  check_status AttemptStatus.invalid = raise token_invalid
  check_status AttemptStatus.exhausted = raise token_invalid
  check_status AttemptStatus.absent = raise token_invalid

  unfoldable pub check_otp : String → EmailOtpPurpose → String → Exec World (Unit {0})
  check_otp email kind otp = do
    now ← utc_now context.external
    result ← attempt_call (
        attempt_verification email (purpose_of (purpose_for_kind kind))
          (context.external.sha256 otp) now (some config.max_attempts) false)
    check_status result.status

module _ (context : AuthContext) (config : EmailOtpOptions) (random_digit : ℕ → Digit) where
  -- The source passes the minutes as their text.
  unfoldable pub issue_otp : String → OtpPurpose → Option String → Dict Variable → Exec World String
  issue_otp identifier purpose user_name extra_template_vars = do
    pair ← generate_pair context.external random_digit config.code_length
    issue_challenge context identifier pair.hashed (purpose_of purpose) config.expires_in
    send_template context (template_of purpose)
        (("otp", Variable.text pair.plain)
          ∷ ("name", Variable.text (or_empty user_name))
          ∷ ("expires_in_minutes", Variable.number (max 1 (config.expires_in / 1000000 / 60)))
          ∷ extra_template_vars)
        (kind_of purpose) identifier (subject_for_purpose context purpose)
    publish (otp_generated identifier (purpose_value (purpose_of purpose)) pair.plain)
    publish (otp_requested identifier (purpose_value (purpose_of purpose)))
    pure pair.plain

  unfoldable pub sent_event : OtpPurpose → String → Client → Exec World (Unit {0})
  sent_event OtpPurpose.verification email client = publish (email_verification_sent email client)
  sent_event OtpPurpose.sign_in email client = pure tt
  sent_event OtpPurpose.password_reset email client = pure tt
  sent_event OtpPurpose.email_change email client = pure tt

  unfoldable pub send_code : String → OtpPurpose → Option String → Client → Exec World (Unit {0})
  send_code email purpose user_name client = do
    _ ← issue_otp email purpose user_name []
    sent_event purpose email client

  -- A code for a user that does not exist: only for a sign-in that may sign up.
  unfoldable pub send_unknown : String → OtpPurpose → Client → Exec World (Unit {0})
  send_unknown email OtpPurpose.sign_in client =
      if config.allow_sign_up then send_code email OtpPurpose.sign_in none client else pure tt
  send_unknown email OtpPurpose.verification client = pure tt
  send_unknown email OtpPurpose.password_reset client = pure tt
  send_unknown email OtpPurpose.email_change client = pure tt

  unfoldable pub send_to : String → OtpPurpose → Client → Option User → Exec World (Unit {0})
  send_to email purpose client none = send_unknown email purpose client
  send_to email purpose client (some user) = send_code email purpose user.name client

  unfoldable pub send_otp : String → EmailOtpPurpose → Client → Exec World (Unit {0})
  send_otp email kind client = do
    user ← query (get_user_by_email context.tools.lower email)
    send_to email (purpose_for_kind kind) client user
