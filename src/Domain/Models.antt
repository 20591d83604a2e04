-- ===== src/Domain/Models.antt =====
-- The rows of src/fastauth/domain/models.py. A `datetime` is the number of microseconds since the
-- epoch. JSON metadata, which no modelled code looks into, is carried as its text.
use fastauth.Prelude.{ℕ, String, Bool, Option, List}
use fastauth.Dict.{Dict}
use fastauth.Domain.Enums.{ProviderId, VerificationPurpose, AuditEventType}

pub record User : Type 0 where
  pub id : String
  pub email : String
  pub username : Option String
  pub name : Option String
  pub image : Option String
  pub email_verified : Bool
  pub active : Bool
  pub pending_email_change : Option String
  pub metadata : String
  pub created_at : ℕ
  pub updated_at : ℕ

pub record Session : Type 0 where
  pub authenticated_at : Option ℕ
  pub id : String
  pub user_id : String
  pub token_hash : String
  pub expires_at : ℕ
  pub ip_address : Option String
  pub user_agent : Option String
  pub created_at : ℕ
  pub updated_at : ℕ

pub record RefreshToken : Type 0 where
  pub id : String
  pub user_id : String
  pub session_id : String
  pub token_hash : String
  pub family_id : String
  pub family_created_at : ℕ
  pub expires_at : ℕ
  pub authenticated_at : Option ℕ
  pub consumed_at : Option ℕ
  pub replaced_by : Option String
  pub ip_address : Option String
  pub user_agent : Option String
  pub created_at : ℕ
  pub updated_at : ℕ

pub record Account : Type 0 where
  pub id : String
  pub user_id : String
  pub provider_id : ProviderId
  pub account_id : String
  pub password : Option String
  pub access_token : Option String
  pub refresh_token : Option String
  pub access_token_expires_at : Option ℕ
  pub refresh_token_expires_at : Option ℕ
  pub scope : Option String
  pub id_token : Option String
  pub created_at : ℕ
  pub updated_at : ℕ

pub record Verification : Type 0 where
  pub id : String
  pub identifier : String
  pub value_hash : String
  pub purpose : VerificationPurpose
  pub expires_at : ℕ
  pub attempt_count : ℕ
  pub consumed_at : Option ℕ
  pub created_at : ℕ
  pub updated_at : ℕ

pub record ApiKey : Type 0 where
  pub id : String
  pub user_id : String
  pub name : String
  pub key_hash : String
  pub key_prefix : String
  pub enabled : Bool
  pub expires_at : Option ℕ
  pub remaining : Option ℕ
  pub refill_amount : Option ℕ
  pub refill_interval_ms : Option ℕ
  pub rate_limit_enabled : Bool
  pub rate_limit_max : Option ℕ
  pub rate_limit_window_ms : Option ℕ
  pub last_refill_at : Option ℕ
  pub last_request_at : Option ℕ
  pub request_count : ℕ
  pub metadata : String
  pub permissions : Dict (List String)
  pub created_at : ℕ
  pub updated_at : ℕ

-- `private_key_encrypted` is the list of its bytes.
pub record JwksKey : Type 0 where
  pub id : String
  pub kid : String
  pub alg : String
  pub public_key : String
  pub private_key_encrypted : List ℕ
  pub created_at : ℕ
  pub expires_at : Option ℕ
  pub rotated_at : Option ℕ

pub record RateLimit : Type 0 where
  pub id : String
  pub key : String
  pub count : ℕ
  pub last_request_ms : ℕ

pub record AuditLog : Type 0 where
  pub id : String
  pub event_type : AuditEventType
  pub identifier : Option String
  pub user_id : Option String
  pub ip_address : Option String
  pub user_agent : Option String
  pub event_data : String
  pub created_at : ℕ
