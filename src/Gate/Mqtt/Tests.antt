-- ===== src/Gate/Mqtt/Tests.antt =====
-- Runs of the device service over MQTT (backend/src/gate/mqtt-gate-device.service.ts).
use parking_gate_remote.Common.{◌≡◌, refl, true, none, some, List, [], ◌∷◌, arith}
use parking_gate_remote.Common.Assoc.{string_eq, number_eq, lookup, insert, delete}
use parking_gate_remote.Common.Http.{ok, err}
use parking_gate_remote.Gate.Mqtt.{
  Pending, Event, start, settle, run, step, publish_command, time_out, handle_ack_message, created,
  connected, publishes, acks, fires, lost, too_long,
}
use parking_gate_remote.Gate.Mqtt.Promises.{Orderly, run-start-IsTracked, time_out_settles}
use parking_gate_remote.Gate.Mqtt.Tracked.{IsTracked}
use parking_gate_remote.Gate.Mqtt.Overwrite.{overwritten_never_settles}

abbrev online : List Event
online = created ∷ connected ∷ publishes "r1" "u1" 0 ∷ []

abbrev waiting : Pending
waiting = record { call = 0; timeout = 0; request_id = "r1"; start_time = 0 }

online-Orderly : Orderly start online
unfolding step lookup
online-Orderly = (tt, (tt, (refl, tt)))

online-pending : lookup "r1" (run start online).pending_requests ≡ some waiting
unfolding run step publish_command insert lookup
online-pending = refl

online-next : (run start online).next ≡ 1
unfolding run step publish_command
online-next = refl

acknowledged :
    lookup 0
      (run start (
        created
        ∷ connected
        ∷ publishes "r1" "u1" 0
        ∷ lost
        ∷ acks "r1" true none
        ∷ fires 0
        ∷ [])).settled
    ≡ some (ok tt)
unfolding run step publish_command insert lookup handle_ack_message settle delete time_out
acknowledged = refl

run-start-IsTracked_example : IsTracked (run start online)
run-start-IsTracked_example = run-start-IsTracked online online-Orderly

time_out_settles_example : lookup 0 (time_out 0 (run start online)).settled ≡ some (err too_long)
unfolding run step publish_command lookup
time_out_settles_example = time_out_settles online 0 online-Orderly (omega arith) refl

overwritten_never_settles_example :
    lookup 0
      (run
        (publish_command "r1" "u2" 9 (run start online))
        (acks "r1" true none ∷ fires 0 ∷ fires 1 ∷ [])).settled
    ≡ none
unfolding run step publish_command
overwritten_never_settles_example =
    overwritten_never_settles online (acks "r1" true none ∷ fires 0 ∷ fires 1 ∷ []) "r1" "u2" 9
      waiting online-Orderly online-pending refl (tt, (tt, (tt, tt)))
