-- ===== src/Web/Admin/Fleet.antt =====
-- The devices of the admin's page: loadDeviceStatus, setPendingCommandForDevice and
-- clearPendingCommandForDevice of frontend/src/app/admin/AdminPageContent.tsx. The answer of the
-- server about the command of a device is a parameter, `none` where the request fails.
use parking_gate_remote.Common.{
  ℕ, ◌+◌, String, Bool, false, Option, none, some, List, [], ◌∷◌, map, ◌==◌, ◌&&◌, ◌||◌, ltb, eqb,
  if◌then◌else◌,
}
use parking_gate_remote.Common.Assoc.{insert, string_eq}
use parking_gate_remote.Gate.Messages.{DeviceStatus}

abbrev stale_threshold_ms : ℕ
stale_threshold_ms = 60_000

-- A device is shown as online if it says so and was seen in the last minute.
abbrev pub is_actually_online : ℕ → DeviceStatus → Bool
is_actually_online now d = d.online && ltb now (d.last_seen_at + stale_threshold_ms)

abbrev with_staleness : ℕ → DeviceStatus → DeviceStatus
with_staleness now d = record d { online = is_actually_online now d }

abbrev pub processed_data : ℕ → List DeviceStatus → List DeviceStatus
processed_data now ds = map (with_staleness now) ds

-- What is shown of the command of a device.
pub record PendingCommand : Type 0 where
  pub device_id : String
  pub action : String
  pub reason : Option String

abbrev pub pending_of : (String → Option PendingCommand) → String → PendingCommand
pending_of ask id = elim (ask id) [
  | some p ↦ p
  | none ↦ record { device_id = id; action = "none"; reason = none }
]

-- `Object.fromEntries`
abbrev from_entries :
    List (String × PendingCommand) → List (String × PendingCommand) → List (String × PendingCommand)
from_entries [] m = m
from_entries ((k, p) ∷ ps) m = from_entries ps (insert k p m)

-- `devicePendingMap` after a load
abbrev pub pending_map :
    (String → Option PendingCommand) → List DeviceStatus → List (String × PendingCommand)
pending_map ask ds = from_entries (map (λ d. (d.device_id, pending_of ask d.device_id)) ds) []

pub data DeviceAction : Type 0 where
  reboot rebuild_ppp : DeviceAction

-- The body of the request that sets a command.
pub record SetPending : Type 0 where
  pub action : DeviceAction
  pub reason : String
  pub ttl_seconds : ℕ

abbrev pub set_pending_body : DeviceAction → SetPending
set_pending_body a = record { action = a; reason = "admin_dashboard"; ttl_seconds = 300 }

-- The message of a request that failed with an error of the server: its text and its status.
abbrev pub load_error : String → String → String → Option ℕ → String
load_error forbidden other message status =
    if message == "AUTH_FORBIDDEN" || is_403 status
    then forbidden
    else if message == ""
    then other
    else message
  where
    is_403 : Option ℕ → Bool
    is_403 none = false
    is_403 (some n) = eqb n 403
