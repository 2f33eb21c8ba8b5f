-- ===== src/Gate/Messages/Tests.antt =====
-- A diagnostics message of two entries, one of them without an event
-- (backend/src/gate/mqtt-gate-device.service.ts).
use parking_gate_remote.Common.{
  String, ◌≡◌, refl, false, Option, none, some, [], ◌∷◌, pos, arith, map,
}
use parking_gate_remote.Common.Json.{
  Json, null, number, text, array, object, nil, cons, end, member,
}
use parking_gate_remote.Mongo.Lists.{lists}
use parking_gate_remote.Gate.Messages.{Inbox, handle_message, handle_diagnostics_message}
use parking_gate_remote.Gate.Messages.Kept.{IsKept, handle_message-IsKept}
use parking_gate_remote.Gate.Mqtt.{start}

abbrev plain : Option Json → String
plain (some (text s)) = s
plain _ = "?"

abbrev castable : Json → Option String
castable (text s) = some s
castable _ = none

abbrev first_entry : Json
first_entry = object (
    member "ts" (number (pos 7))
      (member "level" (number (pos 2)) (member "event" (text "boot") end)))

abbrev second_entry : Json
second_entry = object (member "ts" (number (pos 9)) (member "event" null end))

abbrev report : Json
report = object (
    member "deviceId" (text "mcu-1")
      (member "entries" (array (cons first_entry (cons second_entry nil))) end))

stored :
    map (λ l. l.entries) (handle_diagnostics_message plain lists false 5 report [])
    ≡ (record { ts = pos 7; level = "error"; event = "boot"; message = none } ∷ []) ∷ []
unfolding handle_diagnostics_message
stored = refl

abbrev empty : Inbox
empty = record { mqtt = start; statuses = []; diagnostics = [] }

handle_message-IsKept_example : IsKept (
    handle_message plain lists castable "ack" "status" "diagnostics" "diagnostics"
      (some report)
      false
      5
      empty)
handle_message-IsKept_example =
    handle_message-IsKept lists plain castable "ack" "status" "diagnostics" "diagnostics"
      (some report) false 5 empty (λ d. omega arith, refl)
