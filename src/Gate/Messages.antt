-- ===== src/Gate/Messages.antt =====
-- The messages of the microcontroller: `handleMessage`, `handleStatusMessage` and
-- `handleDiagnosticsMessage` of backend/src/gate/mqtt-gate-device.service.ts, with the documents of
-- schemas/device-status.schema.ts and schemas/device-diagnostic-log.schema.ts. What `JSON.parse`
-- makes of a message, `String(v)`, and the text that mongoose makes of a value are parameters.
-- Of a status, the strength of the signal, the version and `updatedAt`, which the timestamps of
-- mongoose share, are left out; `raw` holds them. A value that mongoose cannot cast fails the write.
pub mod Bounds
pub mod Kept
mod Tests
use parking_gate_remote.Common.{
  ℕ, zero, suc, String, ℤ, pos, Bool, true, false, not, Option, none, some, List, [], ◌∷◌, map,
  ◌==◌, ◌&&◌, ◌||◌, if◌then◌else◌, select, take, eqb,
}
use parking_gate_remote.Common.Json.{
  Json, null, boolean, number, text, array, object, elements, text_of, elements_of, field, truth,
  is_null, is_zero,
}
use parking_gate_remote.Mongo.{Mongo}
use parking_gate_remote.Gate.Mqtt.{Mqtt, handle_ack_message}
use Prim.Native.String

pub record DeviceStatus : Type 0 where
  pub device_id : String
  pub online : Bool
  pub last_seen_at : ℕ
  pub raw : Json

pub record DiagnosticLogEntry : Type 0 where
  pub ts : ℤ
  pub level : String
  pub event : String
  pub message : Option String

pub record DeviceDiagnosticLog : Type 0 where
  pub device_id : String
  pub received_at : ℕ
  pub session_id : Option String
  pub fw_version : Option String
  pub entries : List DiagnosticLogEntry

-- The service with the two collections that its messages fill.
pub record Inbox : Type 0 where
  pub mqtt : Mqtt
  pub statuses : List DeviceStatus
  pub diagnostics : List DeviceDiagnosticLog

-- `s.slice(0, n)`
abbrev pub slice : ℕ → String → String
slice zero s = String.[]
slice (suc n) String.[] = String.[]
slice (suc n) (String.◌∷◌ c s) = String.◌∷◌ c (slice n s)

abbrev holds_number : Option Json → Bool
holds_number (some (number z)) = true
holds_number _ = false

abbrev holds_text : Option Json → Bool
holds_text (some (text s)) = true
holds_text _ = false

abbrev number_of : Option Json → ℤ
number_of (some (number z)) = z
number_of _ = pos 0

-- the test on an entry: `typeof e?.ts === 'number'`, and `event` is a text
abbrev pub is_entry : Json → Bool
is_entry j = holds_number (field "ts" j) && holds_text (field "event" j)

abbrev is_level : ℤ → ℕ → Bool
is_level (pos n) k = eqb n k
is_level _ k = false

abbrev pub is_status_of : String → DeviceStatus → Bool
is_status_of device_id s = s.device_id == device_id

module _ (mongo : Mongo) where
  abbrev pub store_log :
      Bool → DeviceDiagnosticLog → List DeviceDiagnosticLog → List DeviceDiagnosticLog
  store_log unwritten l ls = if unwritten then ls else mongo.insert DeviceDiagnosticLog l ls

  abbrev pub put_status : DeviceStatus → List DeviceStatus → List DeviceStatus
  put_status s ss = mongo.upsert DeviceStatus (is_status_of s.device_id) (λ old. s) s ss

  abbrev pub store_status :
      Bool
      → ℕ
      → Json
      → Option String
      → Option Json
      → Option Json
      → List DeviceStatus
      → List DeviceStatus
  store_status unwritten now raw (some device_id) (some (boolean online)) (some (number updated_at))
        ss =
      if unwritten || is_zero updated_at
      then ss
      else put_status
          (record { device_id = device_id; online = online; last_seen_at = now; raw = raw }) ss
  store_status unwritten now raw _ _ _ ss = ss

module _ (to_text : Option Json → String) where
  -- `levelToString`
  abbrev pub level_to_string : Option Json → String
  level_to_string (some (number z)) =
      if is_level z 0
      then "info"
      else if is_level z 1
      then "warn"
      else if is_level z 2
      then "error"
      else slice 16 (to_text (some (number z)))
  level_to_string (some (text s)) =
      if s == "info" || s == "warn" || s == "error" then s else slice 16 (to_text (some (text s)))
  level_to_string v = slice 16 (to_text v)

  -- `v != null ? String(v).slice(0, n) : undefined`
  abbrev pub short : ℕ → Option Json → Option String
  short n none = none
  short n (some v) = if is_null v then none else some (slice n (to_text (some v)))

  abbrev pub to_entry : Json → DiagnosticLogEntry
  to_entry j = record {
    ts = number_of (field "ts" j);
    level = slice 16 (level_to_string (field "level" j));
    event = slice 64 (to_text (field "event" j));
    message = short 256 (field "message" j);
  }

  abbrev pub valid_entries : List Json → List DiagnosticLogEntry
  valid_entries js = map to_entry (select is_entry (take 100 js))

  abbrev pub to_log : String → ℕ → Json → List DiagnosticLogEntry → DeviceDiagnosticLog
  to_log device_id now body entries = record {
    device_id = slice 128 device_id;
    received_at = now;
    session_id = short 64 (field "sessionId" body);
    fw_version = short 32 (field "fwVersion" body);
    entries = entries;
  }

  module _ (mongo : Mongo) where
    abbrev pub make_log :
        Bool
        → ℕ
        → Json
        → String
        → List DiagnosticLogEntry
        → List DeviceDiagnosticLog
        → List DeviceDiagnosticLog
    make_log unwritten now body device_id [] ls = ls
    make_log unwritten now body device_id (e ∷ es) ls =
        if device_id == ""
        then ls
        else store_log mongo unwritten (to_log device_id now body (e ∷ es)) ls

    abbrev pub with_entries :
        Bool
        → ℕ
        → Json
        → Option String
        → Option (List Json)
        → List DeviceDiagnosticLog
        → List DeviceDiagnosticLog
    with_entries unwritten now body (some device_id) (some js) ls =
        make_log unwritten now body device_id (valid_entries js) ls
    with_entries unwritten now body _ _ ls = ls

    -- `handleDiagnosticsMessage`; a failure of the write, which the first argument says, is caught.
    unfoldable pub handle_diagnostics_message :
        Bool → ℕ → Json → List DeviceDiagnosticLog → List DeviceDiagnosticLog
    handle_diagnostics_message unwritten now body ls =
        with_entries unwritten now body (text_of (field "deviceId" body))
          (elements_of (field "entries" body)) ls

    module _ (cast : Json → Option String) where
      abbrev pub cast_field : Option Json → Option String
      cast_field none = none
      cast_field (some j) = cast j

      -- `handleStatusMessage`; a text that mongoose cannot make is caught like a failed write.
      unfoldable pub handle_status_message : Bool → ℕ → Json → List DeviceStatus → List DeviceStatus
      handle_status_message unwritten now status ss =
          if truth (field "deviceId" status)
          then store_status mongo unwritten now status (cast_field (field "deviceId" status))
              (field "online" status) (field "updatedAt" status) ss
          else ss

      abbrev error_code_of : Option Json → Option String
      error_code_of v = if truth v then some (to_text v) else none

      -- what `handleMessage` does with an acknowledgement; no entry has a key that is no text
      abbrev ack : Json → Mqtt → Mqtt
      ack body m = elim (text_of (field "requestId" body)) [
        | none ↦ m
        | some id ↦
            handle_ack_message id (truth (field "ok" body)) (error_code_of (field "errorCode" body))
              m
      ]

      -- `handleMessage`, for the three topics, on what `JSON.parse` has given, if anything
      unfoldable pub handle_message :
          String → String → String → String → Option Json → Bool → ℕ → Inbox → Inbox
      handle_message ack_topic status_topic diagnostics_topic topic none unwritten now i = i
      handle_message ack_topic status_topic diagnostics_topic topic (some body) unwritten now i =
          if topic == ack_topic
          then record i { mqtt = ack body i.mqtt }
          else if topic == status_topic
          then record i { statuses = handle_status_message unwritten now body i.statuses }
          else if topic == diagnostics_topic
          then record i {
            diagnostics = handle_diagnostics_message unwritten now body i.diagnostics;
          }
          else i
