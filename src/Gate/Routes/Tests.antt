-- ===== src/Gate/Routes/Tests.antt =====
-- Requests for the gate of a tenant who is logged in, and of one who sends no id
-- (backend/src/gate/gate.controller.ts).
use parking_gate_remote.Common.{
  ℕ, suc, String, ◌≡◌, ◌≢◌, refl, true, false, Option, none, some, [], ◌∷◌, pos, arith,
}
use parking_gate_remote.Common.Http.{Result, ok}
use parking_gate_remote.Mongo.Lists.{lists}
use parking_gate_remote.Users.{Db, new_user}
use parking_gate_remote.Users.Schema.{User, Session, approved, user}
use parking_gate_remote.Auth.Tokens.{Payload}
use parking_gate_remote.Auth.Guards.{
  approved_route, validate, approved_guard, check_session, check_approved,
}
use parking_gate_remote.Auth.Guards.Passage.{MayPass}
use parking_gate_remote.Gate.{
  Call, Gate, open_by_user, call_device, check_and_register_request_id, write_log, settle_user,
}
use parking_gate_remote.Gate.Log.{McuMetadata}
use parking_gate_remote.Gate.Routes.{
  Request, open_route, throttled_open, open_handler, check_request_id, is_uuid, get_client_ip,
}
use parking_gate_remote.Gate.Routes.Access.{IsFresh, open_route-device}

abbrev tenant : User
tenant =
    record (new_user "u1" 3 (record {
      email = "dana@x.org";
      password_hash = "secret";
      first_name = "Dana";
      last_name = "Levi";
      phone = "0501234567";
      apartment_number = pos 3;
      floor = pos 1;
      status = some approved;
      rejection_reason = none;
    })) { active_device_id = some "phone"; active_session_id = some "s1" }

abbrev session : Session
session = record {
  user_id = "u1";
  device_id = "phone";
  session_id = "s1";
  refresh_token_hash = "h";
  last_active_at = 6;
}

abbrev db : Db
db = record { users = tenant ∷ []; sessions = session ∷ [] }

abbrev held : Payload
held = record { sub = "u1"; role = user; device_id = "phone"; sid = "s1" }

abbrev sent : Option String → Request
sent id = record {
  request_id = id;
  cf_connecting_ip = none;
  x_forwarded_for = some "10.0.0.7,10.0.0.1";
  ip = some "127.0.0.1";
  user_agent = none;
}

abbrev uuid : String
uuid = "123e4567-e89b-12D3-a456-426614174000"

-- the device counts its openings
abbrev count_up : String → String → ℕ → Result McuMetadata × ℕ
count_up request_id user_id n =
    (ok (record { attempted = true; timeout = false; retries = 0 }), suc n)

abbrev call : Call
call = record {
  started = 10;
  registered = 11;
  finished = 12;
  uuid = "";
  request_fault = none;
  log_fault = none;
}

abbrev closed : Gate ℕ
closed = record { requests = []; logs = []; device = 0 }

abbrev no_spaces : String → String
no_spaces s = s

uuid_checked : is_uuid uuid ≡ true
unfolding is_uuid
uuid_checked = refl

uuid_refused : is_uuid "123e4567-e89b-12d3-a456-42661417400g" ≡ false
unfolding is_uuid
uuid_refused = refl

address : get_client_ip no_spaces (sent none) ≡ "10.0.0.7"
address = refl

opens :
    (open_route no_spaces lists count_up held 9 false false
      (sent (some uuid))
      "x"
      call
      db
      closed).2.device
    ≡ 1
unfolding open_route throttled_open open_handler check_request_id is_uuid open_by_user call_device
    check_and_register_request_id write_log settle_user approved_route validate approved_guard
    check_session check_approved
opens = refl

opens_not :
    (open_route no_spaces lists count_up held 9 false false
      (sent (some uuid))
      "x"
      call
      db
      closed).2.device
    ≢ 0
opens_not h = ground (arith, opens, h)

open_route-device_example :
    MayPass held db × (false ≡ false) × IsFresh no_spaces lists count_up (sent (some uuid)) closed
open_route-device_example =
    open_route-device no_spaces lists count_up held 9 false false (sent (some uuid)) "x" call db
      closed opens_not
