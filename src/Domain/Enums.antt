-- ===== src/Domain/Enums.antt =====
-- The closed sets of strings of src/fastauth/domain/enums.py. A `StrEnum` member is compared by its
-- value, with `==` and with `is` alike, since no two members of one set share a value.
use fastauth.Prelude.{String, Bool, ◌==◌}

pub data ProviderId : Type 0 where
  credential email_otp : ProviderId

unfoldable pub provider_value : ProviderId → String
provider_value ProviderId.credential = "credential"
provider_value ProviderId.email_otp = "email-otp"

pub data VerificationPurpose : Type 0 where
  email_verification password_reset email_change account_deletion email_otp_sign_in :
      VerificationPurpose
  email_otp_verification email_otp_password_reset email_otp_email_change : VerificationPurpose

unfoldable pub purpose_value : VerificationPurpose → String
purpose_value VerificationPurpose.email_verification = "email-verification"
purpose_value VerificationPurpose.password_reset = "password-reset"
purpose_value VerificationPurpose.email_change = "email-change"
purpose_value VerificationPurpose.account_deletion = "account-deletion"
purpose_value VerificationPurpose.email_otp_sign_in = "email-otp-sign-in"
purpose_value VerificationPurpose.email_otp_verification = "email-otp-verification"
purpose_value VerificationPurpose.email_otp_password_reset = "email-otp-password-reset"
purpose_value VerificationPurpose.email_otp_email_change = "email-otp-email-change"

-- `a is b` and `a == b` on purposes and providers.
abbrev pub same_purpose : VerificationPurpose → VerificationPurpose → Bool
same_purpose a b = purpose_value a == purpose_value b

abbrev pub same_provider : ProviderId → ProviderId → Bool
same_provider a b = provider_value a == provider_value b

pub data AuditEventType : Type 0 where
  user_created user_signed_up user_signed_in user_signed_out : AuditEventType
  user_email_verified user_updated user_email_change_requested : AuditEventType
  user_email_changed user_delete_requested user_deleted : AuditEventType
  session_created session_revoked sessions_revoked_all : AuditEventType
  account_linked account_unlinked password_changed : AuditEventType
  password_reset_requested password_reset_completed email_verification_sent : AuditEventType
  api_key_created api_key_revoked api_key_verified_failed : AuditEventType
  security_velocity_exceeded account_locked otp_requested otp_verified : AuditEventType
  otp_verify_failed : AuditEventType

unfoldable pub event_value : AuditEventType → String
event_value AuditEventType.user_created = "user_created"
event_value AuditEventType.user_signed_up = "user_signed_up"
event_value AuditEventType.user_signed_in = "user_signed_in"
event_value AuditEventType.user_signed_out = "user_signed_out"
event_value AuditEventType.user_email_verified = "user_email_verified"
event_value AuditEventType.user_updated = "user_updated"
event_value AuditEventType.user_email_change_requested = "user_email_change_requested"
event_value AuditEventType.user_email_changed = "user_email_changed"
event_value AuditEventType.user_delete_requested = "user_delete_requested"
event_value AuditEventType.user_deleted = "user_deleted"
event_value AuditEventType.session_created = "session_created"
event_value AuditEventType.session_revoked = "session_revoked"
event_value AuditEventType.sessions_revoked_all = "sessions_revoked_all"
event_value AuditEventType.account_linked = "account_linked"
event_value AuditEventType.account_unlinked = "account_unlinked"
event_value AuditEventType.password_changed = "password_changed"
event_value AuditEventType.password_reset_requested = "password_reset_requested"
event_value AuditEventType.password_reset_completed = "password_reset_completed"
event_value AuditEventType.email_verification_sent = "email_verification_sent"
event_value AuditEventType.api_key_created = "api_key_created"
event_value AuditEventType.api_key_revoked = "api_key_revoked"
event_value AuditEventType.api_key_verified_failed = "api_key_verified_failed"
event_value AuditEventType.security_velocity_exceeded = "security_velocity_exceeded"
event_value AuditEventType.account_locked = "account_locked"
event_value AuditEventType.otp_requested = "otp_requested"
event_value AuditEventType.otp_verified = "otp_verified"
event_value AuditEventType.otp_verify_failed = "otp_verify_failed"

abbrev pub same_event : AuditEventType → AuditEventType → Bool
same_event a b = event_value a == event_value b

pub data JwtAlgorithm : Type 0 where
  ed25519 es256 rs256 ps256 es512 : JwtAlgorithm

unfoldable pub algorithm_value : JwtAlgorithm → String
algorithm_value JwtAlgorithm.ed25519 = "Ed25519"
algorithm_value JwtAlgorithm.es256 = "ES256"
algorithm_value JwtAlgorithm.rs256 = "RS256"
algorithm_value JwtAlgorithm.ps256 = "PS256"
algorithm_value JwtAlgorithm.es512 = "ES512"
