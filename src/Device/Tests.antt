-- ===== src/Device/Tests.antt =====
-- The theorems on waiting commands at concrete collections, with lists for MongoDB.
use parking_gate_remote.Common.{
  String, ◌≡◌, refl, false, Option, none, some, List, [], ◌∷◌, ◌==◌, if◌then◌else◌, arith, any,
}
use parking_gate_remote.Mongo.Lists.{lists}
use parking_gate_remote.Device.{get_latest_pending, reboot, rebuild_ppp, Command, consume_pending}
use parking_gate_remote.Device.Delivery.{IsAnswer, consume_pending-IsAnswer}
use parking_gate_remote.Device.Once.{Event, put, poll, answers_id, run, consumed_once}

abbrev older : Command
older = record {
  id = "a";
  device_id = "mcu";
  action = reboot;
  reason = none;
  expires_at = none;
  consumed_at = none;
  created_at = 10;
}

abbrev newer : Command
newer = record {
  id = "b";
  device_id = "mcu";
  action = rebuild_ppp;
  reason = some "ppp is down";
  expires_at = some 900;
  consumed_at = none;
  created_at = 20;
}

abbrev waiting : List Command
waiting = older ∷ newer ∷ []

abbrev token_of : String → Option String
token_of device_id = if device_id == "mcu" then some "long enough" else none

consume_pending-IsAnswer_example :
    IsAnswer lists "mcu" 100 waiting ((consume_pending lists "mcu" 100 waiting).0)
consume_pending-IsAnswer_example = consume_pending-IsAnswer lists "mcu" 100 waiting

first_poll : (consume_pending lists "mcu" 100 waiting).0 ≡ some newer
unfolding consume_pending get_latest_pending
first_poll = refl

abbrev later : List Event
later = poll "mcu" 150 ∷ put "mcu" reboot none (some 60) "c" 200 ∷ poll "mcu" 210 ∷ []

consumed_once_example :
    any (answers_id "b") ((run lists later ((consume_pending lists "mcu" 100 waiting).1)).0) ≡ false
consumed_once_example =
    consumed_once lists "mcu" 100 newer waiting later (omega arith) first_poll
      (refl, (refl, (refl, tt)))
