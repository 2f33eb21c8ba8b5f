-- ===== src/Auth/Guards.antt =====
-- The guards of the routes: backend/src/auth/jwt.strategy.ts (after the signature of the token has
-- been verified), auth/approved.guard.ts and auth/admin.guard.ts.
pub mod Access
pub mod Passage
use parking_gate_remote.Common.{
  ℕ, String, Bool, true, false, not, Option, none, some, ◌==◌, ◌&&◌, ◌||◌, truthy, is_text,
  if◌then◌else◌,
}
use parking_gate_remote.Common.Http.{Thrown, http, unauthorized, forbidden, Result, ok, err}
use parking_gate_remote.Mongo.{Mongo}
use parking_gate_remote.Users.{
  Db, find_by_id, get_session_by_session_id, update_session_last_active,
}
use parking_gate_remote.Users.Schema.{
  User, Session, Status, pending, approved, rejected, archived, Role, user, admin,
}
use parking_gate_remote.Auth.{is_admin, not_found, or_throw, require, on_ok}
use parking_gate_remote.Auth.Tokens.{Payload}

-- What a route finds as `req.user`.
pub record AuthUser : Type 0 where
  pub user_id : String
  pub role : Role
  pub device_id : String
  pub sid : String

abbrev pub auth_user : Payload → AuthUser
auth_user p = record { user_id = p.sub; role = p.role; device_id = p.device_id; sid = p.sid }

infixl 5 ◌>>=◌
abbrev ◌>>=◌ {ℓ κ} : {A : Type ℓ} {B : Type κ} → Result A → (A → Result B) → Result B
ok a >>= f = f a
err e >>= f = err e

module _ (mongo : Mongo) where
  -- the session tests of `validate`, for those who are no admin by their token
  unfoldable pub check_session : Payload → Db → Result (Unit {0})
  check_session p db = do
    s ←
        or_throw (get_session_by_session_id mongo p.sid db)
          (http unauthorized "Session \u{5dc}\u{5d0} \u{5ea}\u{5e7}\u{5d9}\u{5df}")
    _ ← require (s.user_id == p.sub) (
        http unauthorized
          "Session \u{5dc}\u{5d0} \u{5ea}\u{5d5}\u{5d0}\u{5dd} \u{5dc}\u{5de}\u{5e9}\u{5ea}\u{5de}\u{5e9}")
    require (s.device_id == p.device_id)
        (http unauthorized "Device \u{5dc}\u{5d0} \u{5ea}\u{5d5}\u{5d0}\u{5dd}")

  -- `JwtStrategy.validate` at a time
  unfoldable pub validate : Payload → ℕ → Db → Result AuthUser × Db
  validate p now db = on_ok db (or_throw (find_by_id mongo p.sub db) not_found) λ u.
      if is_admin p.role
      then (ok (auth_user p), db)
      else on_ok db (check_session p db)
          λ _. (ok (auth_user p), update_session_last_active mongo p.sid now db)

  abbrev status_message : Status → String
  status_message pending =
      "\u{5d4}\u{5d7}\u{5e9}\u{5d1}\u{5d5}\u{5df} \u{5de}\u{5de}\u{5ea}\u{5d9}\u{5df} \u{5dc}\u{5d0}\u{5d9}\u{5e9}\u{5d5}\u{5e8} \u{5d0}\u{5d3}\u{5de}\u{5d9}\u{5df}"
  status_message rejected =
      "\u{5d4}\u{5d1}\u{5e7}\u{5e9}\u{5d4} \u{5dc}\u{5d0}\u{5d9}\u{5e9}\u{5d5}\u{5e8} \u{5d4}\u{5d7}\u{5e9}\u{5d1}\u{5d5}\u{5df} \u{5e0}\u{5d3}\u{5d7}\u{5ea}\u{5d4}"
  status_message archived =
      "\u{5d4}\u{5de}\u{5e9}\u{5ea}\u{5de}\u{5e9} \u{5e0}\u{5d7}\u{5e1}\u{5dd}"
  status_message approved =
      "\u{5d4}\u{5d7}\u{5e9}\u{5d1}\u{5d5}\u{5df} \u{5dc}\u{5d0} \u{5de}\u{5d0}\u{5d5}\u{5e9}\u{5e8}"

  abbrev is_approved : Status → Bool
  is_approved approved = true
  is_approved _ = false

  -- the tests of `ApprovedGuard` on one who is no admin
  unfoldable pub check_approved : AuthUser → User → Result (Unit {0})
  check_approved a u = do
    _ ← require (is_approved u.status) (http forbidden (status_message u.status))
    _ ← require (truthy u.active_device_id) (
        http unauthorized
          "\u{5d4}\u{5de}\u{5e9}\u{5ea}\u{5de}\u{5e9} \u{5dc}\u{5d0} \u{5de}\u{5d7}\u{5d5}\u{5d1}\u{5e8}")
    require (is_text u.active_device_id a.device_id) (
        http unauthorized
          "\u{5d4}\u{5de}\u{5e9}\u{5ea}\u{5de}\u{5e9} \u{5de}\u{5d7}\u{5d5}\u{5d1}\u{5e8} \u{5de}\u{5de}\u{5db}\u{5e9}\u{5d9}\u{5e8} \u{5d0}\u{5d7}\u{5e8} \u{5d0}\u{5d5} \u{5d4}\u{5ea}\u{5e0}\u{5ea}\u{5e7}")

  -- `ApprovedGuard.canActivate`
  unfoldable pub approved_guard : Option AuthUser → Db → Result (Unit {0})
  approved_guard request_user db = do
    a ← or_throw request_user (
        http unauthorized
          "\u{5d4}\u{5de}\u{5e9}\u{5ea}\u{5de}\u{5e9} \u{5dc}\u{5d0} \u{5de}\u{5d0}\u{5d5}\u{5de}\u{5ea}")
    u ← or_throw (find_by_id mongo a.user_id db) not_found
    if is_admin a.role || is_admin u.role then ok tt else check_approved a u

-- `AdminGuard.canActivate`
pub admin_guard : Option AuthUser → Result (Unit {0})
admin_guard none = err (
    http unauthorized
      "\u{5d4}\u{5de}\u{5e9}\u{5ea}\u{5de}\u{5e9} \u{5dc}\u{5d0} \u{5de}\u{5d0}\u{5d5}\u{5de}\u{5ea}")
admin_guard (some a) =
    if is_admin a.role
    then ok tt
    else err (
        http forbidden
          "\u{5d2}\u{5d9}\u{5e9}\u{5d4} \u{5de}\u{5d5}\u{5d2}\u{5d1}\u{5dc}\u{5ea} \u{5dc}\u{5d0}\u{5d3}\u{5de}\u{5d9}\u{5df} \u{5d1}\u{5dc}\u{5d1}\u{5d3}")

module _ (mongo : Mongo) where
  -- The guards of a route for approved users, in order; the answer is the user of the request.
  unfoldable pub approved_route : Payload → ℕ → Db → Result AuthUser × Db
  approved_route p now db =
      let (r, db') = validate mongo p now db in
      on_ok db' r λ a. on_ok db' (approved_guard mongo (some a) db') λ _. (ok a, db')

  -- The guards of the admin routes, in order.
  pub admin_route : Payload → ℕ → Db → Result AuthUser × Db
  admin_route p now db =
      let (r, db') = approved_route p now db in
      on_ok db' r λ a. on_ok db' (admin_guard (some a)) λ _. (ok a, db')
