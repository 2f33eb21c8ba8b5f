-- ===== src/Admin/Sessions.antt =====
-- What an admin's operations do to the sessions of a user
-- (backend/src/admin/admin.service.ts).
use parking_gate_remote.Common.{
  String, ◌≡◌, ◌≤◌, refl, ◌∙◌, true, false, none, some, ◌==◌, arith, inl, inr, Bool-cases,
  Option-cases, select, reject, remove_first-reject, length, if◌then◌else◌,
}
use parking_gate_remote.Common.Http.{ok, err}
use parking_gate_remote.Mongo.{Mongo}
use parking_gate_remote.Users.{
  Db, has_id, of_user, find_by_id, update_user, clear_session, clear_all_sessions,
}
use parking_gate_remote.Users.Lookup.{update_user-found}
use parking_gate_remote.Users.Schema.{User, Session}
use parking_gate_remote.Auth.Tokens.{Crypto}
use parking_gate_remote.Admin.{
  AdminCall, UpdateUserDto, ResetPasswordDto, ends_session, reason_ok, with_update, notify,
  finish_update, admin_update_user, delete_user, admin_reset_password, reason_required,
}

module _ (mongo : Mongo) (id : String) where
  notify-sessions :
      (c : AdminCall) (dto : UpdateUserDto) (existing u : User) (db : Db)
      → (notify mongo id c dto existing u db).1.sessions ≡ db.sessions
  unfolding notify
  notify-sessions c dto existing u db = ground arith

  finish_update-sessions :
      (trim : String → String) (c : AdminCall) (dto : UpdateUserDto) (existing : User) (db : Db)
      → (finish_update mongo trim id dto c existing db).1.sessions ≡ db.sessions
  unfolding finish_update
  finish_update-sessions trim c dto existing db = elim (Bool-cases (reason_ok trim dto existing)) [
    | inl y ↦
        elim (Option-cases
          (find_by_id mongo id (update_user mongo id (with_update c.now dto existing) db))) [
            | inl n ↦ ground (arith, y, n)
            | inr (u, found) ↦ ground (
              arith,
              y,
              found,
              notify-sessions c dto existing u
                  (update_user mongo id (with_update c.now dto existing) db),
            )
          ]
    | inr n ↦ ground (arith, n)
  ]

  -- An admin's update of a user changes no session document, whatever the new status is: the
  -- sessions of a user who is rejected or archived stay.
  pub admin_update_user-sessions :
      (trim : String → String) (dto : UpdateUserDto) (c : AdminCall) (db : Db)
      → (admin_update_user mongo trim id dto c db).1.sessions ≡ db.sessions
  unfolding admin_update_user
  admin_update_user-sessions trim dto c db = elim (Option-cases (find_by_id mongo id db)) [
    | inl n ↦ ground (arith, n)
    | inr (u, found) ↦ ground (
      arith,
      found,
      finish_update-sessions trim c dto u db,
      finish_update-sessions trim c dto u (clear_session mongo id db),
    )
  ]

  -- The user as `clearSession` leaves it.
  abbrev pub cleared : User → User
  cleared u = record u {
    active_device_id = none;
    active_session_id = none;
    refresh_token_hash = none;
  }

  -- An update of a stored user that lacks the reason it needs is refused, and it has written all
  -- the same if it names a status other than "approved": the stored user has then lost the active
  -- device, the active session and the token's hash. If it names none, or "approved", the stored
  -- user is as before.
  pub refused_update_logs_out :
      (trim : String → String) (dto : UpdateUserDto) (c : AdminCall) (db : Db) (u : User)
      → find_by_id mongo id db ≡ some u
      → reason_ok trim dto u ≡ false
      → ((admin_update_user mongo trim id dto c db).0 ≡ err reason_required)
        × (find_by_id mongo id ((admin_update_user mongo trim id dto c db).1)
            ≡ some (if ends_session dto.status then cleared u else u))
  unfolding admin_update_user finish_update
  refused_update_logs_out trim dto c db u found bad = elim (Bool-cases (ends_session dto.status)) [
    | inl ends ↦
        ground (arith, found, ends, bad, update_user-found mongo id u db found cleared refl)
    | inr stays ↦ ground (arith, found, stays, bad)
  ]

  -- A deletion that succeeds was asked for by another admin and, if one user at most had the id,
  -- it leaves exactly the users with other ids and the sessions of other users.
  pub delete_user_removes :
      (acting_admin_id : String) (db : Db) (u : User)
      → length (select (has_id id) db.users) ≤ 1
      → (delete_user mongo id acting_admin_id db).0 ≡ ok u
      → (id == acting_admin_id ≡ false)
        × ((delete_user mongo id acting_admin_id db).1.users ≡ reject (has_id id) db.users)
        × ((delete_user mongo id acting_admin_id db).1.sessions ≡ reject (of_user id) db.sessions)
  unfolding delete_user
  delete_user_removes acting_admin_id db u one h = elim (Bool-cases (id == acting_admin_id)) [
    | inl y ↦ ground (arith, y, h)
    | inr n ↦ elim (Option-cases (find_by_id mongo id db)) [
      | inl none_found ↦ ground (arith, n, none_found, h)
      | inr (v, found) ↦ ground (
        arith,
        n,
        found,
        mongo.delete_one_lem User (has_id id) db.users
            ∙ remove_first-reject (has_id id) db.users one,
        mongo.delete_many_lem Session (of_user id) db.sessions,
      )
    ]
  ]

module _ (mongo : Mongo) (crypto : Crypto) (id : String) where
  abbrev pub with_password : ResetPasswordDto → AdminCall → User → User
  with_password dto c u = record u { password_hash = crypto.hash c.salt dto.new_password }

  abbrev pub logged_out : User → User
  logged_out u = record u {
    active_device_id = none;
    active_session_id = none;
    refresh_token_hash = none;
  }

  -- A reset of a password by an admin that succeeds ends every session of the user and of no one
  -- else, takes the active device away, and stores a hash that the new password is accepted
  -- against.
  pub admin_reset_password_ends :
      (dto : ResetPasswordDto) (c : AdminCall) (db : Db) (u : User)
      → (admin_reset_password mongo crypto id dto c db).0 ≡ ok u
      → ((admin_reset_password mongo crypto id dto c db).1.sessions
          ≡ reject (of_user id) db.sessions)
        × (find_by_id mongo id ((admin_reset_password mongo crypto id dto c db).1)
            ≡ some (logged_out u))
        × (crypto.compare dto.new_password u.password_hash ≡ true)
  unfolding admin_reset_password
  admin_reset_password_ends dto c db u h =
      elim (Bool-cases (dto.new_password == dto.confirm_password)) [
        | inr n ↦ ground (arith, n, h)
        | inl y ↦ elim (Option-cases (find_by_id mongo id db)) [
          | inl none_found ↦ ground (arith, y, none_found, h)
          | inr (v, found) ↦
              let again = update_user-found mongo id v db found (with_password dto c) refl in
              let db' = update_user mongo id (with_password dto c) db in
              ground (
                arith,
                y,
                found,
                h,
                again,
                mongo.delete_many_lem Session (of_user id) db.sessions,
                update_user-found mongo id (with_password dto c v) (clear_all_sessions mongo id db')
                    again logged_out refl,
                crypto.compare-hash c.salt dto.new_password,
              )
        ]
      ]
