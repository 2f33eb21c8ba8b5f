-- ===== src/Auth/Guards/Passage.antt =====
-- What is known of the user whom the guards have let through (backend/src/auth/jwt.strategy.ts and
-- approved.guard.ts).
use parking_gate_remote.Common.{ℕ, ◌≡◌, ◌≢◌, ◌⊎◌, sym, ap, subst, ◌∙◌, some, arith, first}
use parking_gate_remote.Common.Http.{ok, is_ok}
use parking_gate_remote.Mongo.{Mongo}
use parking_gate_remote.Users.{Db, has_id}
use parking_gate_remote.Users.Schema.{User, approved, admin}
use parking_gate_remote.Auth.{on_ok}
use parking_gate_remote.Auth.Tokens.{Payload}
use parking_gate_remote.Auth.Guards.{AuthUser, auth_user, validate, approved_guard, approved_route}
use parking_gate_remote.Auth.Guards.Access.{
  HasSession, validate_iff, approved_guard_iff, validate-is_ok, on_ok-ok,
}

-- The user of the token is stored, and the token says "admin", or its session belongs to its user
-- and device and the stored user is an admin, or approved with that device as the active one.
pub record MayPass (p : Payload) (db : Db) : Type 0 where
  pub stored : User
  pub found : first (has_id p.sub) db.users ≡ some stored
  pub in_session : (p.role ≡ admin) ⊎ HasSession p db.sessions
  pub standing :
      (p.role ≡ admin)
      ⊎ (stored.role ≡ admin)
      ⊎ ((stored.status ≡ approved)
          × (stored.active_device_id ≡ some p.device_id)
          × (p.device_id ≢ ""))

ok-injective : {a b : AuthUser} → ok a ≡ ok b → a ≡ b
ok-injective h = cc

module _ (mongo : Mongo) where
  validate-users : (p : Payload) (now : ℕ) (db : Db) → (validate mongo p now db).1.users ≡ db.users
  unfolding validate
  validate-users p now db = ground arith

  pub approved_route-MayPass :
      (p : Payload) (now : ℕ) (db : Db) (a : AuthUser)
      → (approved_route mongo p now db).0 ≡ ok a
      → (a ≡ auth_user p) × MayPass p db
  unfolding approved_route
  approved_route-MayPass p now db a h =
      let db' = (validate mongo p now db).1 in
      let (b, valid, e) =
        on_ok-ok db' ((validate mongo p now db).0)
          (λ b. on_ok db' (approved_guard mongo (some b) db') λ _. (ok b, db')) h in
      let h' : (on_ok db' (approved_guard mongo (some b) db') (λ _. (ok b, db'))).0 ≡ ok a =
        sym (ap (λ x. x.0) e) ∙ h in
      let (t, passed, e') =
        on_ok-ok db' (approved_guard mongo (some b) db') (λ _. (ok b, db')) h' in
      let valid' = validate-is_ok mongo p now db (ap is_ok valid) in
      let same : b ≡ auth_user p = ok-injective (sym valid ∙ valid') in
      let (u, found, standing) =
        (approved_guard_iff mongo (auth_user p) db').0
          (subst (λ x. approved_guard mongo (some x) db' ≡ ok tt) same passed) in
      (
        ok-injective (sym h' ∙ ap (λ x. x.0) e') ∙ same,
        record {
          stored = u;
          found = subst (λ us. first (has_id p.sub) us ≡ some u) (validate-users p now db) found;
          in_session = ((validate_iff mongo p now db).0 valid').1;
          standing = standing;
        },
      )
