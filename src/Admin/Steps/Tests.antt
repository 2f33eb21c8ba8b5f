-- ===== src/Admin/Steps/Tests.antt =====
-- An admin approves all who wait, sends one of them away and deletes the other
-- (backend/src/admin/admin.service.ts).
use parking_gate_remote.Common.{String, ◌≡◌, refl, true, false, none, some, List, [], ◌∷◌, pos, map}
use parking_gate_remote.Mongo.Lists.{lists}
use parking_gate_remote.Users.{Db, new_user}
use parking_gate_remote.Users.Schema.{User, pending, archived, approved}
use parking_gate_remote.Auth.Tokens.Plain.{plain}
use parking_gate_remote.Admin.{UpdateUserDto}
use parking_gate_remote.Admin.Steps.{
  AdminStep, approve_all, update, delete, approve_all_pending_users, approve_one, approve_each,
  admin_run,
}
use parking_gate_remote.Admin.Steps.Kept.{IsOrderly}
use parking_gate_remote.Admin.Steps.Run.{admin_run-IsOrderly}

abbrev applicant : User
applicant = new_user "u1" 3 (record {
  email = "noa@x.org";
  password_hash = "old";
  first_name = "Noa";
  last_name = "Bar";
  phone = "0501234567";
  apartment_number = pos 4;
  floor = pos 2;
  status = some pending;
  rejection_reason = none;
})

abbrev waiting : Db
waiting = record {
  users = applicant ∷ record applicant { id = "u2"; email = "gil@x.org" } ∷ [];
  sessions = [];
}

abbrev archive : UpdateUserDto
archive = record {
  first_name = none;
  last_name = none;
  phone = none;
  apartment_number = none;
  floor = none;
  status = some archived;
  rejection_reason = none;
}

abbrev calls : List AdminStep
calls =
    approve_all 9 (λ email. false)
    ∷ update "u1" archive (record { now = 50; later = 51; salt = 0; email_sent = true })
    ∷ delete "u2" "u7"
    ∷ []

abbrev no_spaces : String → String
no_spaces s = s

two_approved : (approve_all_pending_users lists 9 (λ email. false) waiting).0 ≡ 2
unfolding approve_all_pending_users approve_each approve_one
two_approved = refl

both_approved :
    map (λ u. u.status) (approve_all_pending_users lists 9 (λ email. false) waiting).1.users
    ≡ approved ∷ approved ∷ []
unfolding approve_all_pending_users approve_each approve_one
both_approved = refl

admin_run-IsOrderly_example :
    IsOrderly no_spaces lists (admin_run lists plain no_spaces calls waiting)
admin_run-IsOrderly_example = admin_run-IsOrderly lists plain no_spaces calls waiting (refl, refl)
