-- ===== src/Simulator.antt =====
-- The simulated microcontroller: mcu-sim/src/index.js. What it publishes is given as the JSON value
-- of the text. Its settings, the clock and the delays are parameters; the connection is the client's.
pub mod Served
mod Tests
use parking_gate_remote.Common.{
  ℕ, ◌+◌, String, ℤ, pos, Bool, true, false, not, Option, none, some, List, [], ◌∷◌, ◌==◌, ◌&&◌,
  if◌then◌else◌,
}
use parking_gate_remote.Common.Json.{
  Json, boolean, number, text, array, object, Items, nil, cons, Fields, end, member, field, truth,
}

pub data AckMode : Type 0 where
  success fail no_answer jitter : AckMode

pub record Settings : Type 0 where
  pub device_id : String
  pub fw_version : String
  pub session_id : String
  pub ack_mode : AckMode
  pub ack_delay : ℕ

-- An acknowledgement that is published after a delay.
pub record Delayed : Type 0 where
  pub delay : ℕ
  pub payload : Json

-- `sendAck`
abbrev pub send_ack : Json → Bool → Option String → Json
send_ack request_id ok error_code = object (
    member "requestId" request_id (
      member "ok" (boolean ok) (elim error_code [
        | none ↦ end
        | some code ↦ if not ok && not (code == "") then member "errorCode" (text code) end else end
      ])))

-- `processAck`, with the delay that `jitter` draws
pub process_ack : AckMode → ℕ → ℕ → Json → Option Delayed
process_ack no_answer drawn delay request_id = none
process_ack jitter drawn delay request_id =
    some (record { delay = delay + drawn; payload = send_ack request_id true none })
process_ack fail drawn delay request_id =
    some (record { delay = delay; payload = send_ack request_id false (some "SIM_FAIL") })
process_ack success drawn delay request_id =
    some (record { delay = delay; payload = send_ack request_id true none })

-- `handleCommand`, on what `JSON.parse` gives, if anything
abbrev handled : Settings → ℕ → Option Json → Option Delayed
handled s drawn none = none
handled s drawn (some request_id) =
    if truth (some request_id) then process_ack s.ack_mode drawn s.ack_delay request_id else none

abbrev request_id_field : Option Json → Option Json
request_id_field none = none
request_id_field (some command) = field "requestId" command

pub handle_command : Settings → ℕ → Option Json → Option Delayed
handle_command s drawn command = handled s drawn (request_id_field command)

abbrev pub event_entry : ℕ → String → String → Fields → Json
event_entry ts level event more =
    object (
      member "ts" (number (pos ts))
        (member "level" (text level) (member "event" (text event) more)))

-- the entries of `publishDiagnostics`
pub diagnostic_entries : Option ℕ → ℕ → Items
diagnostic_entries none now = cons (event_entry now "info" "connection_restored" end) nil
diagnostic_entries (some lost_at) now = cons (event_entry lost_at "warn" "connection_lost" end) (
    cons
      (event_entry (lost_at + 1500) "warn" "reconnect_attempt" (member "message" (text "n=1") end))
      (cons
        (event_entry (lost_at + 4000) "warn" "reconnect_attempt"
          (member "message" (text "n=2") end))
        (cons (event_entry now "info" "connection_restored" end) nil)))

abbrev pub optional : String → String → Fields → Fields
optional name value more = if value == "" then more else member name (text value) more

-- the payload of `publishDiagnostics`
pub publish_diagnostics : Settings → Option ℕ → ℕ → Json
publish_diagnostics s lost_at now = object (
    member "deviceId" (text s.device_id) (
      member "entries" (array (diagnostic_entries lost_at now))
        (optional "fwVersion" s.fw_version (optional "sessionId" s.session_id end))))

-- the payload of `publishStatus`; a strength of the signal that is no number is left out
pub publish_status : Settings → Option ℤ → ℕ → Json
publish_status s rssi now =
    let version = optional "fwVersion" s.fw_version end in
    object (
      member "deviceId" (text s.device_id) (
        member "online" (boolean true) (
          member "updatedAt" (number (pos now))
            (elim rssi [ none ↦ version | some z ↦ member "rssi" (number z) version ]))))
