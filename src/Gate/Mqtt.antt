-- ===== src/Gate/Mqtt.antt =====
-- The device service over MQTT: the part of backend/src/gate/mqtt-gate-device.service.ts that
-- sends commands and waits for their acknowledgements. The client, its broker and the timers are
-- outside: what they do arrives as calls of the handlers below, in some order. A promise is the
-- number of the call that made it, and so is the timer that the call arms.
pub mod Tracked
mod Preserved
pub mod Promises
pub mod Overwrite
mod Tests
use parking_gate_remote.Common.{
  ℕ, suc, String, Bool, true, false, Option, none, some, List, [], ◌∷◌, ◌++◌, ◌&&◌, truthy, text_or,
  if◌then◌else◌,
}
use parking_gate_remote.Common.Assoc.{string_eq, number_eq, lookup, insert, delete}
use parking_gate_remote.Common.Http.{http, bad_gateway, gateway_timeout, Thrown, Result, ok, err}
use Prim.Native.String

pub record Pending : Type 0 where
  pub call : ℕ  -- stands for `resolve` and `reject`
  pub timeout : ℕ
  pub request_id : String
  pub start_time : ℕ

pub record Mqtt : Type 0 where
  pub has_client : Bool
  pub is_connected : Bool
  pub pending_requests : List (String × Pending)
  pub timers : List (ℕ × String)  -- the timers that are set, with the request id that each caught
  pub settled : List (ℕ × Result (Unit {0}))  -- the promises that are settled
  pub published : List (String × String)  -- the commands given to the client: request and user
  pub next : ℕ  -- the number of the next call

abbrev pub start : Mqtt
start = record {
  has_client = false;
  is_connected = false;
  pending_requests = [];
  timers = [];
  settled = [];
  published = [];
  next = 0;
}

abbrev not_connected : Thrown
not_connected = http bad_gateway "MQTT client not connected"

abbrev disconnecting : Thrown
disconnecting = http bad_gateway "MQTT client disconnecting"

abbrev not_sent : Thrown
not_sent =
    http bad_gateway
      "\u{5e9}\u{5d2}\u{5d9}\u{5d0}\u{5d4} \u{5d1}\u{5e9}\u{5dc}\u{5d9}\u{5d7}\u{5ea} \u{5e4}\u{5e7}\u{5d5}\u{5d3}\u{5d4} \u{5dc}\u{5d4}\u{5e9}\u{5e2}\u{5e8}"

abbrev pub too_long : Thrown
too_long =
    http gateway_timeout
      "\u{5ea}\u{5e7}\u{5e9}\u{5d5}\u{5e8}\u{5ea} \u{5e2}\u{5dd} \u{5d4}\u{5e9}\u{5e2}\u{5e8} \u{5d0}\u{5e8}\u{5db}\u{5d4} \u{5d9}\u{5d5}\u{5ea}\u{5e8} \u{5de}\u{5d3}\u{5d9} \u{5d6}\u{5de}\u{5df}"

-- A promise that is settled stays as it is.
pub settle : ℕ → Result (Unit {0}) → List (ℕ × Result (Unit {0})) → List (ℕ × Result (Unit {0}))
settle call r settled = elim (lookup call settled) [
  | none ↦ insert call r settled
  | some old ↦ settled
]

abbrev enter : String → String → ℕ → Mqtt → Mqtt
enter request_id user_id now m = record m {
  pending_requests =
      insert request_id
        (record { call = m.next; timeout = m.next; request_id = request_id; start_time = now })
        m.pending_requests;
  timers = insert m.next request_id m.timers;
  published = m.published ++ (request_id, user_id) ∷ [];
  next = suc m.next;
}

-- `publishCommandAndWaitForAck`, up to the callback of `publish`
pub publish_command : String → String → ℕ → Mqtt → Mqtt
publish_command request_id user_id now m =
    if m.has_client && m.is_connected
    then enter request_id user_id now m
    else record m { settled = settle m.next (err not_connected) m.settled; next = suc m.next }

-- The callback of `publish`, when it is given an error.
pub publish_failed : ℕ → String → Mqtt → Mqtt
publish_failed call request_id m = record m {
  timers = delete call m.timers;
  pending_requests = delete request_id m.pending_requests;
  settled = settle call (err not_sent) m.settled;
}

-- The callback of the timer. A timer that has been cleared does not fire.
pub time_out : ℕ → Mqtt → Mqtt
time_out timer m = elim (lookup timer m.timers) [
  | none ↦ m
  | some request_id ↦ elim (lookup request_id m.pending_requests) [
    | none ↦ record m { timers = delete timer m.timers }
    | some p ↦ record m {
      timers = delete timer m.timers;
      pending_requests = delete request_id m.pending_requests;
      settled = settle p.call (err too_long) m.settled;
    }
  ]
]

-- What an acknowledgement settles the promise with.
abbrev pub verdict : Bool → Option String → Result (Unit {0})
verdict true error_code = ok tt
verdict false none = err (http bad_gateway "MCU returned error")
verdict false (some code) = err (
    http bad_gateway
      (if truthy (some code) then String.◌++◌ "MCU error: " code else "MCU returned error"))

pub handle_ack_message : String → Bool → Option String → Mqtt → Mqtt
handle_ack_message request_id is_ok error_code m = elim (lookup request_id m.pending_requests) [
  | none ↦ m
  | some p ↦ record m {
    timers = delete p.timeout m.timers;
    pending_requests = delete request_id m.pending_requests;
    settled = settle p.call (verdict is_ok error_code) m.settled;
  }
]

-- the loop of `disconnect`
pub clear_timers : List (String × Pending) → List (ℕ × String) → List (ℕ × String)
clear_timers [] timers = timers
clear_timers ((_, p) ∷ ps) timers = clear_timers ps (delete p.timeout timers)

pub reject_all :
    List (String × Pending) → List (ℕ × Result (Unit {0})) → List (ℕ × Result (Unit {0}))
reject_all [] settled = settled
reject_all ((_, p) ∷ ps) settled = reject_all ps (settle p.call (err disconnecting) settled)

-- `disconnect`, up to the callback of `end`
pub disconnect : Mqtt → Mqtt
disconnect m = record m {
  timers = clear_timers m.pending_requests m.timers;
  settled = reject_all m.pending_requests m.settled;
  pending_requests = [];
}

-- What the client, the broker and the timers make happen.
pub data Event : Type 0 where
  created connected lost ended disconnects : Event
  publishes : String → String → ℕ → Event
  publish_fails : ℕ → String → Event
  acks : String → Bool → Option String → Event
  fires : ℕ → Event

pub step : Mqtt → Event → Mqtt
step m created = record m { has_client = true }
step m connected = record m { is_connected = true }
step m lost = record m { is_connected = false }
step m ended = record m { has_client = false; is_connected = false }
step m disconnects = disconnect m
step m (publishes request_id user_id now) = publish_command request_id user_id now m
step m (publish_fails call request_id) = publish_failed call request_id m
step m (acks request_id is_ok error_code) = handle_ack_message request_id is_ok error_code m
step m (fires timer) = time_out timer m

pub run : Mqtt → List Event → Mqtt
run m [] = m
run m (e ∷ es) = run (step m e) es
