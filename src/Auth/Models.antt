-- ===== src/Auth/Models.antt =====
-- The parameters and results of internal/usecase/auth (models.go, srp_session.go) and its settings.
use cloud_zero_knowledge_sto.Base.{ℕ, ◌*◌, none, List, [], Text}
use cloud_zero_knowledge_sto.Store.{AuditEvent, second}
use cloud_zero_knowledge_sto.Sessions.{DeviceInfo, nil_uuid}

pub record RegisterParams : Type 0 where
  pub email : Text
  pub srp_salt : Text
  pub srp_verifier : Text
  pub bcrypt_salt : Text
  pub crypto_salt : List ℕ
  pub public_key : List ℕ
  pub encrypted_private_key : List ℕ
  pub kek_encrypted_master : List ℕ
  pub kek_encrypted_recovery : List ℕ
  pub recovery_salt : List ℕ
  pub device : DeviceInfo

pub record LoginFinalizeParams : Type 0 where
  pub session_id : Text
  pub m1 : Text
  pub device : DeviceInfo

pub record TokenPair : Type 0 where
  pub access_token : Text
  pub access_expires_in : ℕ
  pub refresh_token : Text
  pub refresh_expires_in : ℕ
  pub device_session_id : ℕ
  pub client_key : List ℕ
  pub crypto_salt : List ℕ
  pub kek_encrypted_master : List ℕ
  pub encrypted_private_key : List ℕ

pub record LoginInitResult : Type 0 where
  pub session_id : Text
  pub srp_salt : Text
  pub bcrypt_salt : Text
  pub b_pub : Text
  pub crypto_salt : List ℕ

pub record LoginFinalizeResult : Type 0 where
  pub m2 : Text
  pub pair : TokenPair
  pub user_id : ℕ

-- The settings of the service.
pub record AuthSettings : Type 0 where
  pub access_ttl : ℕ
  pub refresh_ttl : ℕ
  pub frontend_origin : Text

-- `SRPSessionTTL`
abbrev pub srp_session_ttl : ℕ
srp_session_ttl = 300 * second

abbrev pub reset_token_ttl : ℕ
reset_token_ttl = 3600 * second

abbrev pub user_event : ℕ → Text → Text → Text → AuditEvent
user_event user kind ip_address user_agent = record {
  id = nil_uuid;
  user_id = user;
  event_type = kind;
  ip_address = ip_address;
  user_agent = user_agent;
  resource_id = none;
  resource_name = [];
  created_at = 0;
}
