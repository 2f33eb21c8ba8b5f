-- ===== src/Auth/Routes/Tests.antt =====
-- Two requests for a link from one address
-- (backend/src/auth/forgot-password-throttler.guard.ts, backend/src/auth/auth.controller.ts).
use parking_gate_remote.Common.{String, ◌≡◌, refl, none, some}
use parking_gate_remote.Common.Http.{err}
use parking_gate_remote.Mongo.Lists.{lists}
use parking_gate_remote.Users.{Db}
use parking_gate_remote.Auth.{Call}
use parking_gate_remote.Auth.Tokens.Plain.{plain}
use parking_gate_remote.Gate.Routes.{Request}
use parking_gate_remote.Web.Trim.{trim, trim_end, blank}
use parking_gate_remote.Auth.Routes.{
  forgot_password_tracker, gate_tracker, refresh_route, kept, no_refresh_token,
}

abbrev from_client : String → Request
from_client forwarded = record {
  request_id = none;
  cf_connecting_ip = none;
  x_forwarded_for = some forwarded;
  ip = some "10.0.0.1";
  user_agent = none;
}

-- The key is the first address of the header, which the client may write: it gets a new key with
-- each request.
first : forgot_password_tracker (from_client "1.1.1.1, 9.9.9.9") ≡ "forgot-password:ip:1.1.1.1"
unfolding trim trim_end blank
first = refl

second : forgot_password_tracker (from_client "2.2.2.2, 9.9.9.9") ≡ "forgot-password:ip:2.2.2.2"
unfolding trim trim_end blank
second = refl

by_user : gate_tracker (some "u1") (some "10.0.0.1") ≡ "gate-open:user:u1"
by_user = refl

no_cookie :
    (c : Call) (db : Db) → refresh_route lists plain none c db ≡ (err no_refresh_token, kept, db)
unfolding refresh_route
no_cookie c db = refl
