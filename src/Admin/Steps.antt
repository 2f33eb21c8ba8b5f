-- ===== src/Admin/Steps.antt =====
-- All that an admin does to users, one call after the other: the operations of
-- backend/src/admin/admin.service.ts, with approveAllPendingUsers.
pub mod Ids
pub mod Kept
pub mod Run
mod Tests
use parking_gate_remote.Common.{
  ℕ, suc, String, Bool, true, false, Option, none, some, List, [], ◌∷◌, if◌then◌else◌, take,
}
use parking_gate_remote.Common.Http.{Thrown}
use parking_gate_remote.Mongo.{Mongo}
use parking_gate_remote.Users.{Db, update_user, clear_session, clear_active_device}
use parking_gate_remote.Users.Schema.{Status, pending, approved, rejected, archived, Role, User}
use parking_gate_remote.Auth.Tokens.{Crypto}
use parking_gate_remote.Admin.{
  UpdateUserDto, ResetPasswordDto, AdminCall, admin_update_user, update_user_role, delete_user,
  reset_user_device, send_approval_email, admin_reset_password,
}

abbrev pub is_pending : User → Bool
is_pending u = elim u.status [
  | pending ↦ true
  | approved ↦ false
  | rejected ↦ false
  | archived ↦ false
]

abbrev pub with_approval : ℕ → User → User
with_approval now u = record u { status = approved; approved_at = some now; rejected_at = none }

abbrev pub with_email_sent : ℕ → User → User
with_email_sent now u = record u { approval_email_sent_at = some now }

module _ (mongo : Mongo) where
  -- The users that are found first: `createdAt` downwards is the order of `findUsersPaginated`.
  abbrev pub pending_users : Db → List User
  pending_users db = take 10000 (mongo.find_sorted User is_pending (λ u. u.created_at) db.users)

  -- the body of the loop, for one user; the second argument says to whom the e-mail goes out
  unfoldable pub approve_one : ℕ → (String → Bool) → User → Db → Db
  approve_one now email_sent u db =
      let approved_db = update_user mongo u.id (with_approval now) db in
      let mailed =
        if email_sent u.email
        then update_user mongo u.id (with_email_sent now) approved_db
        else approved_db in
      clear_active_device mongo u.id (clear_session mongo u.id mailed)

  unfoldable pub approve_each : ℕ → (String → Bool) → List User → Db → ℕ × Db
  approve_each now email_sent [] db = (0, db)
  approve_each now email_sent (u ∷ us) db =
      let (n, db') = approve_each now email_sent us (approve_one now email_sent u db) in
      (suc n, db')

  -- `approveAllPendingUsers`
  unfoldable pub approve_all_pending_users : ℕ → (String → Bool) → Db → ℕ × Db
  approve_all_pending_users now email_sent db = approve_each now email_sent (pending_users db) db

-- A call of an admin.
pub data AdminStep : Type 0 where
  update : String → UpdateUserDto → AdminCall → AdminStep
  set_role : String → Role → AdminStep
  delete : String → String → AdminStep
  reset_device : String → String → AdminStep
  send_email : String → AdminCall → Thrown → AdminStep
  set_password : String → ResetPasswordDto → AdminCall → AdminStep
  approve_all : ℕ → (String → Bool) → AdminStep

module _ (mongo : Mongo) (crypto : Crypto) (trim : String → String) where
  abbrev pub admin_step : AdminStep → Db → Db
  admin_step (update id dto c) db = (admin_update_user mongo trim id dto c db).1
  admin_step (set_role id role) db = (update_user_role mongo id role db).1
  admin_step (delete id acting) db = (delete_user mongo id acting db).1
  admin_step (reset_device id device) db = (reset_user_device mongo id device db).1
  admin_step (send_email id c failure) db = (send_approval_email mongo id c failure db).1
  admin_step (set_password id dto c) db = (admin_reset_password mongo crypto id dto c db).1
  admin_step (approve_all now email_sent) db = (approve_all_pending_users mongo now email_sent db).1

  abbrev pub admin_run : List AdminStep → Db → Db
  admin_run [] db = db
  admin_run (s ∷ ss) db = admin_run ss (admin_step s db)
