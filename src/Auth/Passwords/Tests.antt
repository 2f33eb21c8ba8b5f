-- ===== src/Auth/Passwords/Tests.antt =====
-- The theorems on forgotten passwords at a user who asks for a link
-- (backend/src/auth/auth.service.ts).
use parking_gate_remote.Common.{
  ℕ, String, ◌≡◌, ◌≤◌, refl, none, some, [], ◌∷◌, arith, select, length, pos,
}
use parking_gate_remote.Common.Http.{ok, err}
use parking_gate_remote.Mongo.Lists.{lists}
use parking_gate_remote.Users.{Db, new_user, has_id, find_by_id}
use parking_gate_remote.Users.Schema.{User, pending}
use parking_gate_remote.Auth.{Call}
use parking_gate_remote.Auth.Tokens.Plain.{plain}
use parking_gate_remote.Auth.Passwords.{
  matched_user, reset_password, request_password_reset, bad_link,
}
use parking_gate_remote.Auth.Passwords.Reset.{reset_password_once}
use parking_gate_remote.Auth.Passwords.Request.{request_password_reset-reset_password}

abbrev noa : User
noa = new_user "u2" 3 (record {
  email = "noa@x.org";
  password_hash = "old";
  first_name = "Noa";
  last_name = "Bar";
  phone = "0501234567";
  apartment_number = pos 4;
  floor = pos 2;
  status = some pending;
  rejection_reason = none;
})

abbrev at : ℕ → Call
at now = record {
  now = now;
  later = now;
  uuid = "s";
  random_hex = "c0ffee";
  salt = 0;
  object_id = "o";
  fault = none;
}

abbrev db : Db
db = record { users = noa ∷ []; sessions = [] }

abbrev asked : Db
asked = record {
  users =
      record noa {
        reset_password_token_hash = some (plain.hash 0 "c0ffee");
        reset_password_expires_at = some 5000;
      }
      ∷ [];
  sessions = [];
}

request_password_reset-reset_password_example :
    ((reset_password lists plain "c0ffee" "new"
        (at 1000)
        ((request_password_reset lists plain none none "noa@x.org" (at 5) db).1)).0
      ≡ ok tt)
    × (find_by_id lists "u2" (
          (reset_password lists plain "c0ffee" "new"
            (at 1000)
            ((request_password_reset lists plain none none "noa@x.org" (at 5) db).1)).1)
        ≡ some (record noa { password_hash = plain.hash 0 "new" }))
unfolding plain
request_password_reset-reset_password_example =
    request_password_reset-reset_password lists plain none none "noa@x.org" "new" (at 5) (at 1000)
      db noa refl refl refl refl (omega arith)

one_id : (id : String) → length (select (has_id id) asked.users) ≤ 1
one_id id = ground arith

worked : (reset_password lists plain "c0ffee" "new" (at 1000) asked).0 ≡ ok tt
unfolding reset_password matched_user plain
worked = refl

reset_password_once_example :
    (reset_password lists plain "c0ffee" "other"
      (at 2000)
      ((reset_password lists plain "c0ffee" "new" (at 1000) asked).1)).0
    ≡ err bad_link
unfolding plain
reset_password_once_example =
    reset_password_once lists plain "c0ffee" "new" "other" (at 1000) (at 2000) asked one_id
      (omega arith) worked
