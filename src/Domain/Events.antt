-- ===== src/Domain/Events.antt =====
-- src/fastauth/domain/events.py: the events that the modelled code publishes, with the fields that the
-- publisher gives. The id and the time of an event are left out, and the client only where the code
-- does not pass it.
use fastauth.Prelude.{ℕ, String, Bool, Option, List}

-- What a client sends with a request.
pub record Client : Type 0 where
  pub ip_address : Option String
  pub user_agent : Option String

pub data AuthEvent : Type 0 where
  user_signed_up user_signed_in user_email_verified : String → String → Client → AuthEvent
  user_created : String → String → AuthEvent
  user_signed_out : String → AuthEvent
  user_updated : String → List String → Bool → String → AuthEvent
  profile_updated : String → List String → Client → AuthEvent
  user_email_change_requested user_email_changed : String → String → String → Client → AuthEvent
  user_delete_requested : String → String → Client → AuthEvent
  user_deleted : String → Client → AuthEvent
  session_created : String → String → Client → AuthEvent
  session_revoked : String → String → AuthEvent
  sessions_revoked_all password_changed password_reset_completed : String → Client → AuthEvent
  sessions_revoked_all_of : String → AuthEvent
  account_linked : String → String → Client → AuthEvent
  password_reset_requested email_verification_sent : String → Client → AuthEvent
  otp_generated : String → String → String → AuthEvent
  otp_requested : String → String → AuthEvent
  otp_verified : String → String → String → AuthEvent
  otp_verify_failed : String → String → ℕ → AuthEvent
  api_key_created api_key_revoked : String → String → AuthEvent
  api_key_verify_failed : Option String → AuthEvent
  account_locked_out : String → ℕ → Client → AuthEvent
