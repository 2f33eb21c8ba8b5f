-- ===== src/Simulator/Tests.antt =====
-- A report of the simulated microcontroller after a loss of the connection (mcu-sim/src/index.js).
use parking_gate_remote.Common.{
  String, ◌≡◌, ◌≢◌, refl, false, Option, some, [], ◌∷◌, ◌++◌, ◌==◌, arith, ap,
}
use parking_gate_remote.Common.Json.{Json, text, member, object, end}
use parking_gate_remote.Mongo.Lists.{lists}
use parking_gate_remote.Gate.Messages.{handle_diagnostics_message}
use parking_gate_remote.Simulator.{
  Settings, fail, publish_diagnostics, handle_command, process_ack, send_ack,
}
use parking_gate_remote.Simulator.Served.{
  reported_log, publish_diagnostics-handle_diagnostics_message,
}

abbrev plain : Option Json → String
plain (some (text s)) = s
plain _ = "?"

abbrev settings : Settings
settings = record {
  device_id = "gate-001";
  fw_version = "sim-1.0.0";
  session_id = "sim-7";
  ack_mode = fail;
  ack_delay = 100;
}

refused :
    handle_command settings 0 (some (object (member "requestId" (text "r1") end)))
    ≡ some (record { delay = 100; payload = send_ack (text "r1") false (some "SIM_FAIL") })
unfolding handle_command process_ack
refused = refl

named : settings.device_id ≢ ""
named e = ground (arith, ap (λ s. s == "") e)

publish_diagnostics-handle_diagnostics_message_example :
    handle_diagnostics_message plain lists false 90 (publish_diagnostics settings (some 40) 80) []
    ≡ [] ++ reported_log plain (λ s. refl) settings (some 40) 80 90 ∷ []
publish_diagnostics-handle_diagnostics_message_example =
    publish_diagnostics-handle_diagnostics_message plain (λ s. refl) lists settings (some 40) 80 90
      [] named (omega arith) (omega arith) (omega arith)
