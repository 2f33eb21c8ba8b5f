-- ===== src/Auth/Tests.antt =====
-- Runs of login, refresh and logout, and the theorems at inputs that meet their conditions
-- (backend/src/auth).
use parking_gate_remote.Common.{
  ℕ, ◌≡◌, refl, false, none, some, [], ◌∷◌, arith, pos, select, inl, inr, eq_iff, String, true, ◌⊎◌,
}
use parking_gate_remote.Common.Http.{ok, is_ok}
use parking_gate_remote.Mongo.Lists.{lists}
use parking_gate_remote.Users.{Db, of_user}
use parking_gate_remote.Users.Schema.{User, approved, user, admin}
use parking_gate_remote.Users.Sessions.{session_of}
use parking_gate_remote.Auth.Tokens.{Payload}
use parking_gate_remote.Auth.Tokens.Plain.{plain}
use parking_gate_remote.Auth.{
  Call, LoginDto, LoginResponse, admit, enter, login, login_status, login_device, admit_refresh,
  refresh, admit_logout, leave, logout, payload_of,
}
use parking_gate_remote.Auth.Login.{stored_hash, admit_iff, login-single_session}
use parking_gate_remote.Auth.Rotation.{login-admit_refresh, refresh_once}
use parking_gate_remote.Auth.Guards.{auth_user, check_session, validate, admin_route}
use parking_gate_remote.Auth.Guards.Access.{login_supersedes, logout_ends, admin_route_iff}

abbrev dana : User
dana = record {
  id = "u1";
  email = "dana@x.org";
  password_hash = "secret";
  role = user;
  first_name = "Dana";
  last_name = "Levi";
  phone = "0501234567";
  apartment_number = pos 3;
  floor = pos 1;
  status = approved;
  rejection_reason = none;
  approved_at = some 5;
  rejected_at = none;
  approval_email_sent_at = none;
  active_device_id = none;
  active_session_id = none;
  refresh_token_hash = none;
  reset_password_token_hash = none;
  reset_password_expires_at = none;
  created_at = 1;
}

abbrev before : Db
before = record { users = dana ∷ []; sessions = [] }

abbrev from_phone : LoginDto
from_phone = record { email = "dana@x.org"; password = "secret"; device_id = "phone" }

abbrev call : String → ℕ → Call
call uuid now = record {
  now = now;
  later = now;
  uuid = uuid;
  random_hex = "00";
  salt = 0;
  object_id = "u2";
  fault = none;
}

abbrev answer : LoginResponse
answer = record {
  user = dana;
  access_token = plain.sign_access 10 (payload_of lists plain dana "phone" "s1");
  refresh_token = plain.sign_refresh 10 (payload_of lists plain dana "phone" "s1");
}

logged_in : (login lists plain from_phone (call "s1" 10) before).0 ≡ ok answer
unfolding login admit enter login_status login_device plain
logged_in = refl

admit_iff_example : admit lists plain from_phone before ≡ ok dana
unfolding plain
admit_iff_example =
    (admit_iff lists plain from_phone before dana).1 (refl, refl, refl, inr (inl refl))

login-single_session_example :
    select (of_user "u1") (login lists plain from_phone (call "s1" 10) before).1.sessions
    ≡ session_of "u1" "phone" "s1" (stored_hash lists plain from_phone (call "s1" 10) dana) 10 ∷ []
login-single_session_example =
    (login-single_session lists plain from_phone (call "s1" 10) before answer "u2" logged_in refl
      refl).0

login-admit_refresh_example :
    admit_refresh lists plain answer.refresh_token
      (call "s2" 20)
      (login lists plain from_phone (call "s1" 10) before).1
    ≡ ok (payload_of lists plain dana "phone" "s1")
unfolding plain
login-admit_refresh_example =
    login-admit_refresh lists plain from_phone (call "s1" 10) (call "s2" 20) before answer logged_in
      refl (omega arith) (omega arith)

abbrev inside : Db
inside = record {
  users = record dana { active_device_id = some "phone" } ∷ [];
  sessions = session_of "u1" "phone" "s1" answer.refresh_token 10 ∷ [];
}

abbrev held : Payload
held = record { sub = "u1"; role = user; device_id = "phone"; sid = "s1" }

held_accepted : admit_refresh lists plain answer.refresh_token (call "s2" 20) inside ≡ ok held
unfolding admit_refresh plain
held_accepted = refl

refresh_once_example :
    is_ok
      (refresh lists plain answer.refresh_token
        (call "s3" 30)
        (refresh lists plain answer.refresh_token (call "s2" 20) inside).1).0
    ≡ false
refresh_once_example =
    refresh_once lists plain answer.refresh_token (call "s2" 20) (call "s3" 30) inside held
      held_accepted (omega arith) (omega arith) refl

abbrev demoted : Payload
demoted = record { sub = "u1"; role = admin; device_id = "old"; sid = "gone" }

accepted :
    is_ok (validate lists held 20 (login lists plain from_phone (call "s1" 10) before).1).0 ≡ true
unfolding validate check_session login admit enter login_status login_device plain
accepted = refl

login_supersedes_example : (user ≡ admin) ⊎ ((held.sid ≡ "s1") × (held.device_id ≡ "phone"))
login_supersedes_example =
    login_supersedes lists plain from_phone (call "s1" 10) before answer held 20 logged_in refl refl
      accepted

-- A token of an earlier session is refused.
superseded :
    is_ok
      (validate lists
        (record held { sid = "s0" })
        20
        (login lists plain from_phone (call "s1" 10) before).1).0
    ≡ false
unfolding validate check_session login admit enter login_status login_device plain
superseded = refl

-- A token that says "admin" from before the user lost that role is still accepted.
still_admin :
    is_ok (validate lists demoted 20 (login lists plain from_phone (call "s1" 10) before).1).0
    ≡ true
unfolding validate check_session login admit enter login_status login_device plain
still_admin = refl

logged_out : (logout lists plain "u1" "phone" inside).0 ≡ ok tt
unfolding logout admit_logout leave
logged_out = refl

logout_ends_example :
    is_ok (validate lists held 30 (logout lists plain "u1" "phone" inside).1).0 ≡ false
logout_ends_example =
    logout_ends lists plain "u1" "phone" inside held 30 logged_out
      (ground (arith, eq_iff "phone" "")) refl refl refl

admin_route_iff_example : (admin_route lists demoted 20 before).0 ≡ ok (auth_user demoted)
admin_route_iff_example = (admin_route_iff lists demoted 20 before).1 (refl, (dana, refl))
