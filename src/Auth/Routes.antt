-- ===== src/Auth/Routes.antt =====
-- The routes of backend/src/auth/auth.controller.ts that handle the cookie of the refresh token, and
-- the keys that backend/src/gate/gate-throttler.guard.ts and
-- backend/src/auth/forgot-password-throttler.guard.ts count requests by. The attributes of the cookie
-- are left out, and the cookie of a request is `none` if it is missing.
mod Tests
use parking_gate_remote.Common.{
  ℕ, String, ◌≡◌, refl, ap, Bool, true, false, Option, none, some, truthy, text_or, if◌then◌else◌,
  arith,
}
use parking_gate_remote.Common.Http.{Thrown, http, unauthorized, Result, ok, err}
use parking_gate_remote.Mongo.{Mongo}
use parking_gate_remote.Users.{Db}
use parking_gate_remote.Users.Schema.{User}
use parking_gate_remote.Auth.{
  LoginDto, LoginResponse, RefreshResponse, Call, login, refresh, logout,
}
use parking_gate_remote.Auth.Tokens.{Crypto}
use parking_gate_remote.Gate.Routes.{Request, get_client_ip}
use parking_gate_remote.Web.Trim.{trim}
use parking_gate_remote.Web.Api.{joined}

-- What an answer does to the cookie.
pub data Cookie : Type 0 where
  kept cleared : Cookie
  set : String → Cookie

-- The cookie that the browser has after an answer.
abbrev pub browser_cookie : Cookie → Option String → Option String
browser_cookie kept c = c
browser_cookie cleared c = none
browser_cookie (set t) c = some t

pub record LoggedIn : Type 0 where
  pub user : User
  pub access_token : String

abbrev pub no_refresh_token : Thrown
no_refresh_token = http unauthorized "Refresh token \u{5dc}\u{5d0} \u{5e0}\u{5de}\u{5e6}\u{5d0}"

module _ (mongo : Mongo) (crypto : Crypto) where
  abbrev login_answer : Result LoginResponse × Db → Result LoggedIn × Cookie × Db
  login_answer (ok r, db) =
      (ok (record { user = r.user; access_token = r.access_token }), set r.refresh_token, db)
  login_answer (err e, db) = (err e, kept, db)

  unfoldable pub login_route : LoginDto → Call → Db → Result LoggedIn × Cookie × Db
  login_route dto c db = login_answer (login mongo crypto dto c db)

  abbrev refresh_answer : Result RefreshResponse × Db → Result String × Cookie × Db
  refresh_answer (ok r, db) = (ok r.access_token, set r.refresh_token, db)
  refresh_answer (err e, db) = (err e, kept, db)

  unfoldable pub refresh_route : Option String → Call → Db → Result String × Cookie × Db
  refresh_route cookie c db =
      if truthy cookie
      then refresh_answer (refresh mongo crypto (text_or cookie "") c db)
      else (err no_refresh_token, kept, db)

  abbrev logout_answer : Result (Unit {0}) × Db → Result (Unit {0}) × Cookie × Db
  logout_answer (ok u, db) = (ok u, cleared, db)
  logout_answer (err e, db) = (err e, kept, db)

  unfoldable pub logout_route : String → String → Db → Result (Unit {0}) × Cookie × Db
  logout_route user_id device_id db = logout_answer (logout mongo crypto user_id device_id db)

-- `GateThrottlerGuard.getTracker`
abbrev pub gate_tracker : Option String → Option String → String
gate_tracker user_id ip =
    if truthy user_id
    then joined "gate-open:user:" (text_or user_id "")
    else joined "gate-open:ip:" (text_or ip "unknown")

-- `ForgotPasswordThrottlerGuard.getTracker`
abbrev pub forgot_password_tracker : Request → String
forgot_password_tracker req = joined "forgot-password:ip:" (get_client_ip trim req)
