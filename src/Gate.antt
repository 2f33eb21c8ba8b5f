-- ===== src/Gate.antt =====
-- Opening the gate: backend/src/gate/gate.service.ts with the documents of
-- gate/schemas/gate-log.schema.ts and gate-request.schema.ts. The device service and MongoDB are
-- parameters; times are milliseconds read from the clock, one field of `Call` for each reading.
pub mod Log
pub mod Replay
pub mod Retry
pub mod Mqtt
pub mod Audit
pub mod Routes
pub mod Pages
pub mod Messages
pub mod Diagnostics
mod Tests
use parking_gate_remote.Common.{
  ℕ, String, Bool, true, false, Option, none, some, List, sub_ℕ, text_or, if◌then◌else◌,
}
use parking_gate_remote.Common.Http.{
  Thrown, http, conflict, Result, ok, err, is_conflict, is_named, message_or,
}
use parking_gate_remote.Mongo.{Mongo, created, duplicate_key, failed}
use Log.{
  OpenedBy, user, admin_backdoor, LogStatus, success, blocked_replay, McuMetadata, GateLog,
  GateRequest,
}
use Log

-- The parameters of `openByUser`.
pub record UserParams : Type 0 where
  pub request_id : String
  pub user_id : String
  pub email : String
  pub device_id : String
  pub session_id : Option String
  pub ip : Option String
  pub user_agent : Option String

-- The parameters of `openByAdminBackdoor`.
pub record AdminParams : Type 0 where
  pub request_id : Option String
  pub ip : Option String
  pub user_agent : Option String

-- What one call meets: the readings of the clock, a fresh UUID, and the database's failures on
-- the creation of the request record and of the log entry.
pub record Call : Type 0 where
  pub started : ℕ
  pub registered : ℕ
  pub finished : ℕ
  pub uuid : String
  pub request_fault : Option Thrown
  pub log_fault : Option Thrown

-- The two collections, and the state of the device service.
pub record Gate (S : Type 0) : Type 0 where
  pub requests : List GateRequest
  pub logs : List GateLog
  pub device : S

-- What the `catch` clause leaves for the log entry.
pub record Settled : Type 0 where
  pub status : LogStatus
  pub failure_reason : Option String
  pub mcu : McuMetadata

abbrev pub untried : McuMetadata
untried = record { attempted = false; timeout = false; retries = 0 }

abbrev pub replay_message : String
replay_message =
    "\u{5d1}\u{5e7}\u{5e9}\u{5d4} \u{5db}\u{5e4}\u{5d5}\u{5dc}\u{5d4} \u{5d6}\u{5d5}\u{5d4}\u{5ea}\u{5d4}"

abbrev unknown_message : String
unknown_message =
    "\u{5e9}\u{5d2}\u{5d9}\u{5d0}\u{5d4} \u{5dc}\u{5d0} \u{5d9}\u{5d3}\u{5d5}\u{5e2}\u{5d4} \u{5d1}\u{5e4}\u{5ea}\u{5d9}\u{5d7}\u{5ea} \u{5d4}\u{5e9}\u{5e2}\u{5e8}"

-- `catch` of `openByAdminBackdoor`, and of `openByUser` but for a conflict
abbrev settle_failed : Thrown → Settled
settle_failed e = record {
  status = Log.failed;
  failure_reason = some (message_or unknown_message e);
  mcu = record { attempted = true; timeout = is_named "GatewayTimeoutException" e; retries = 0 };
}

pub settle_admin : Result McuMetadata → Settled
settle_admin (ok m) = record { status = success; failure_reason = none; mcu = m }
settle_admin (err e) = settle_failed e

pub settle_user : Result McuMetadata → Settled
settle_user (ok m) = record { status = success; failure_reason = none; mcu = m }
settle_user (err e) =
    if is_conflict e
    then record {
      status = blocked_replay;
      failure_reason = some (message_or unknown_message e);
      mcu = untried;
    }
    else settle_failed e

abbrev pub returned : Result McuMetadata → Result (Unit {0})
returned (ok m) = ok tt
returned (err e) = err e

abbrev pub user_log : UserParams → Call → Settled → GateLog
user_log p c s = record {
  request_id = p.request_id;
  user_id = some p.user_id;
  email = some p.email;
  device_id = some p.device_id;
  session_id = p.session_id;
  ip = p.ip;
  user_agent = p.user_agent;
  opened_by = user;
  status = s.status;
  failure_reason = s.failure_reason;
  duration_ms = sub_ℕ c.finished c.started;
  mcu = s.mcu;
  created_at = c.finished;
}

-- `params.requestId || randomUUID()`
abbrev pub admin_request_id : AdminParams → Call → String
admin_request_id p c = text_or p.request_id c.uuid

abbrev pub admin_log : AdminParams → Call → Settled → GateLog
admin_log p c s = record {
  request_id = admin_request_id p c;
  user_id = none;
  email = none;
  device_id = none;
  session_id = none;
  ip = p.ip;
  user_agent = p.user_agent;
  opened_by = admin_backdoor;
  status = s.status;
  failure_reason = s.failure_reason;
  duration_ms = sub_ℕ c.finished c.started;
  mcu = s.mcu;
  created_at = c.finished;
}

module _ (mongo : Mongo) where
  -- A result that is thrown from the `finally` block takes the place of the other.
  pub write_log {ℓ} :
      {S : Type 0} {A : Type ℓ} → Option Thrown → GateLog → Result A → Gate S → Result A × Gate S
  write_log (some e) l r g = (err e, g)
  write_log none l r g = (r, record g { logs = mongo.insert GateLog l g.logs })

  -- The failure that the server answers with, if any, and the time of the call, come last.
  pub check_and_register_request_id :
      String → String → List GateRequest → Option Thrown → ℕ → Result (List GateRequest)
  check_and_register_request_id request_id user_id requests fault now =
      elim (mongo.create_unique GateRequest (λ r. r.request_id) fault
        (record { request_id = request_id; user_id = user_id; created_at = now }) requests) [
          | created rs ↦ ok rs
          | duplicate_key ↦ err (http conflict replay_message)
          | failed e ↦ err e
        ]

  module _ {S : Type 0} (open_gate : String → String → S → Result McuMetadata × S) where
    -- the `try` block of `openByUser`, from the registration on
    pub call_device : UserParams → Result (List GateRequest) → Gate S → Result McuMetadata × Gate S
    call_device p (err e) g = (err e, g)
    call_device p (ok rs) g =
        let (r, d) = open_gate p.request_id p.user_id g.device in
        (r, record g { requests = rs; device = d })

    pub open_by_user : UserParams → Call → Gate S → Result (Unit {0}) × Gate S
    open_by_user p c g =
        let (r, g') =
          call_device p
            (check_and_register_request_id p.request_id p.user_id g.requests c.request_fault
              c.registered)
            g in
        write_log c.log_fault (user_log p c (settle_user r)) (returned r) g'

    pub open_by_admin_backdoor : AdminParams → Call → Gate S → Result (Unit {0}) × Gate S
    open_by_admin_backdoor p c g =
        let (r, d) = open_gate (admin_request_id p c) "admin-backdoor" g.device in
        write_log c.log_fault (admin_log p c (settle_admin r)) (returned r)
          (record g { device = d })
