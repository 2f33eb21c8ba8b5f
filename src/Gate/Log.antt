-- ===== src/Gate/Log.antt =====
-- The documents of backend/src/gate/schemas/gate-log.schema.ts and gate-request.schema.ts.
use parking_gate_remote.Common.{ℕ, String, Bool, Option, ℤ}

pub data OpenedBy : Type 0 where
  user admin_backdoor : OpenedBy

pub data LogStatus : Type 0 where
  success failed blocked_rate_limit blocked_replay : LogStatus

pub record McuMetadata : Type 0 where
  pub attempted : Bool
  pub timeout : Bool
  pub retries : ℕ

pub record GateLog : Type 0 where
  pub request_id : String
  pub user_id : Option String
  pub email : Option String
  pub device_id : Option String
  pub session_id : Option String
  pub ip : Option String
  pub user_agent : Option String
  pub opened_by : OpenedBy
  pub status : LogStatus
  pub failure_reason : Option String
  pub duration_ms : ℤ
  pub mcu : McuMetadata
  pub created_at : ℕ

pub record GateRequest : Type 0 where
  pub request_id : String
  pub user_id : String
  pub created_at : ℕ
