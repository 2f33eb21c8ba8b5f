-- ===== src/Admin/Terminal/Tests.antt =====
-- An admin connects to the web terminal and types (backend/src/admin/terminal/terminal.gateway.ts).
use parking_gate_remote.Common.{
  String, ◌≡◌, refl, true, false, Option, none, some, List, [], ◌∷◌, pos,
}
use parking_gate_remote.Common.Assoc.{lookup, insert}
use parking_gate_remote.Common.Json.{text}
use parking_gate_remote.Mongo.Lists.{lists}
use parking_gate_remote.Users.{Db, new_user}
use parking_gate_remote.Users.Schema.{User, approved, admin}
use parking_gate_remote.Auth.Tokens.{Payload}
use parking_gate_remote.Admin.Terminal.{create_terminal, write_to_terminal}
use parking_gate_remote.Admin.Terminal.Gateway.{
  Event, connect, input, after, handle_connection, handle_terminal_input, authenticate,
}
use parking_gate_remote.Admin.Terminal.Access.{IsGuarded, after-IsGuarded}

abbrev dana : User
dana =
    record (new_user "u1" 3 (record {
      email = "d@x.org";
      password_hash = "h";
      first_name = "D";
      last_name = "L";
      phone = "050";
      apartment_number = pos 1;
      floor = pos 1;
      status = some approved;
      rejection_reason = none;
    })) { role = admin }

abbrev users : Db
users = record { users = dana ∷ []; sessions = [] }

abbrev verify : String → String → Option Payload
verify secret token = some (record { sub = "u1"; role = admin; device_id = "web"; sid = "s1" })

abbrev history : List Event
history =
    input false "socket" (some (text "ls")) 8
    ∷ connect "socket"
        (record { auth_token = some (text "t"); query_token = none; authorization = none }) users
        (some "secret") (record { exists = true; copied = true }) (λ args. true) 5
    ∷ []

typed : (after lists verify history).written ≡ ("u1", "ls") ∷ []
unfolding create_terminal handle_connection handle_terminal_input write_to_terminal authenticate
    lookup insert
typed = refl

after-IsGuarded_example : IsGuarded lists verify history (after lists verify history)
after-IsGuarded_example = after-IsGuarded lists verify history
