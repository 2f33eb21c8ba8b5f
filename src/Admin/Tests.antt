-- ===== src/Admin/Tests.antt =====
-- The theorems on an admin's operations at users of which one is approved and one is pending
-- (backend/src/admin/admin.service.ts).
use parking_gate_remote.Common.{String, ◌≡◌, refl, true, none, some, [], ◌∷◌, pos}
use parking_gate_remote.Common.Http.{ok, err}
use parking_gate_remote.Mongo.Lists.{lists}
use parking_gate_remote.Users.{Db, new_user, find_by_id}
use parking_gate_remote.Users.Schema.{User, Session, pending, approved, rejected, archived}
use parking_gate_remote.Auth.Tokens.Plain.{plain}
use parking_gate_remote.Admin.{
  AdminCall, UpdateUserDto, ResetPasswordDto, admin_update_user, delete_user, admin_reset_password,
  reason_required,
}
use parking_gate_remote.Admin.Sessions.{admin_update_user-sessions, refused_update_logs_out}

abbrev applicant : User
applicant = new_user "u2" 3 (record {
  email = "noa@x.org";
  password_hash = "old";
  first_name = "Noa";
  last_name = "Bar";
  phone = "0501234567";
  apartment_number = pos 4;
  floor = pos 2;
  status = some pending;
  rejection_reason = none;
})

abbrev tenant : User
tenant = record applicant {
  id = "u1";
  email = "dana@x.org";
  status = approved;
  approved_at = some 5;
  active_device_id = some "phone";
  active_session_id = some "s1";
}

abbrev session : Session
session = record {
  user_id = "u1";
  device_id = "phone";
  session_id = "s1";
  refresh_token_hash = "h";
  last_active_at = 6;
}

abbrev db : Db
db = record { users = tenant ∷ applicant ∷ []; sessions = session ∷ [] }

abbrev call : AdminCall
call = record { now = 50; later = 51; salt = 0; email_sent = true }

abbrev unchanged : UpdateUserDto
unchanged = record {
  first_name = none;
  last_name = none;
  phone = none;
  apartment_number = none;
  floor = none;
  status = none;
  rejection_reason = none;
}

abbrev reject_without_reason : UpdateUserDto
reject_without_reason = record unchanged { status = some rejected }

abbrev no_spaces : String → String
no_spaces s = s

admin_update_user-sessions_example :
    (admin_update_user lists no_spaces "u1"
      (record unchanged { status = some archived })
      call
      db).1.sessions
    ≡ session ∷ []
admin_update_user-sessions_example =
    admin_update_user-sessions lists "u1" no_spaces (record unchanged { status = some archived })
      call db

refused_update_logs_out_example :
    ((admin_update_user lists no_spaces "u1" reject_without_reason call db).0 ≡ err reason_required)
    × (find_by_id lists "u1"
          ((admin_update_user lists no_spaces "u1" reject_without_reason call db).1)
        ≡ some (record tenant {
          active_device_id = none;
          active_session_id = none;
          refresh_token_hash = none;
        }))
refused_update_logs_out_example =
    refused_update_logs_out lists "u1" no_spaces reject_without_reason call db tenant refl refl

deleted : (delete_user lists "u1" "u9" db).0 ≡ ok tenant
unfolding delete_user
deleted = refl

abbrev new_password : ResetPasswordDto
new_password = record { new_password = "secret"; confirm_password = "secret" }

abbrev changed : User
changed = record tenant { password_hash = plain.hash 0 "secret" }

reset : (admin_reset_password lists plain "u1" new_password call db).0 ≡ ok changed
unfolding admin_reset_password
reset = refl
