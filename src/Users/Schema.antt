-- ===== src/Users/Schema.antt =====
-- The documents of backend/src/users/schemas/user.schema.ts and session.schema.ts.
use parking_gate_remote.Common.{ℕ, ℤ, String, Option}

pub data Status : Type 0 where
  pending approved rejected archived : Status

pub data Role : Type 0 where
  user admin : Role

pub record User : Type 0 where
  pub id : String
  pub email : String
  pub password_hash : String
  pub role : Role
  pub first_name : String
  pub last_name : String
  pub phone : String
  pub apartment_number : ℤ
  pub floor : ℤ
  pub status : Status
  pub rejection_reason : Option String
  pub approved_at : Option ℕ
  pub rejected_at : Option ℕ
  pub approval_email_sent_at : Option ℕ
  pub active_device_id : Option String
  pub active_session_id : Option String
  pub refresh_token_hash : Option String
  pub reset_password_token_hash : Option String
  pub reset_password_expires_at : Option ℕ
  pub created_at : ℕ

pub record Session : Type 0 where
  pub user_id : String
  pub device_id : String
  pub session_id : String
  pub refresh_token_hash : String
  pub last_active_at : ℕ
