-- ===== src/Gate/Tests.antt =====
-- Runs of the gate on concrete calls, and the theorems at inputs that meet their conditions
-- (backend/src/gate).
use parking_gate_remote.Common.{
  ℕ, ◌+◌, String, ◌≡◌, refl, ap, true, false, none, some, List, [], ◌∷◌, ◌++◌, arith, ltb,
}
use parking_gate_remote.Common.Assoc.{string_eq, number_eq}
use parking_gate_remote.Common.Http.{Thrown, http, error, conflict, Result, ok, err}
use parking_gate_remote.Mongo.Lists.{lists}
use parking_gate_remote.Gate.{
  UserParams, AdminParams, Call, Gate, open_by_user, replay_message, write_log, call_device,
  check_and_register_request_id, settle_user,
}
use parking_gate_remote.Gate.Log.{McuMetadata}
use parking_gate_remote.Gate.Replay.{Event, sweeps, opens_admin, run, replay_refused}
use parking_gate_remote.Gate.Audit.{IsEntry, open_by_user-IsEntry, open_by_user-unregistered}

-- A device that records the requests that reach it, and opens.
abbrev recorder : String → String → List String → Result McuMetadata × List String
recorder id user seen =
    (ok (record { attempted = true; timeout = false; retries = 0 }), seen ++ id ∷ [])

abbrev ask : UserParams
ask = record {
  request_id = "r1";
  user_id = "u1";
  email = "a@b.c";
  device_id = "d1";
  session_id = none;
  ip = none;
  user_agent = none;
}

abbrev ask_admin : AdminParams
ask_admin = record { request_id = none; ip = none; user_agent = none }

abbrev at : ℕ → Call
at now = record {
  started = now;
  registered = now + 1;
  finished = now + 2;
  uuid = "fresh";
  request_fault = none;
  log_fault = none;
}

abbrev closed : Gate (List String)
closed = record { requests = []; logs = []; device = [] }

abbrev after_first : Gate (List String)
after_first = (open_by_user lists recorder ask (at 0) closed).1

opens_once : (open_by_user lists recorder ask (at 5) after_first).1.device ≡ "r1" ∷ []
unfolding open_by_user call_device check_and_register_request_id settle_user write_log
opens_once = refl

abbrev thirty_seconds : ℕ
thirty_seconds = 30000

abbrev sweep : Event
sweep = sweeps 20000 (λ r. ltb (r.created_at + thirty_seconds) 20000)

abbrev quiet : List Event
quiet = opens_admin ask_admin (at 10) ∷ sweep ∷ []

replay_refused_example :
    (open_by_user lists recorder ask (at 25000) (run lists recorder after_first quiet)).0
    ≡ err (http conflict replay_message)
replay_refused_example =
    ap (λ (r : Result (Unit {0}) × Gate (List String)). r.0)
      (replay_refused lists recorder thirty_seconds ask ask (at 0) (at 25000) closed quiet refl refl
        (tt, ((omega arith, λ r h. ground arith), tt)) refl refl refl)

open_by_user-IsEntry_example :
    IsEntry closed after_first "r1" (open_by_user lists recorder ask (at 0) closed).0
open_by_user-IsEntry_example = open_by_user-IsEntry lists recorder ask (at 0) closed refl

abbrev unreachable : Thrown
unreachable = error "MongoNetworkError" "connection closed"

abbrev faulty : Call
faulty = record (at 0) { request_fault = some unreachable }

open_by_user-unregistered_example :
    (open_by_user lists recorder ask faulty closed).0 ≡ err unreachable
open_by_user-unregistered_example =
    (open_by_user-unregistered lists recorder ask faulty closed unreachable refl refl refl).0
