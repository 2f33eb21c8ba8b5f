-- ===== src/Admin/Steps/Run.antt =====
-- What all calls of an admin keep, one after the other (backend/src/admin/admin.service.ts).
use parking_gate_remote.Common.{
  String, ◌≡◌, refl, ap, ◌∙◌, none, some, List, [], ◌∷◌, ◌==◌, if◌then◌else◌, if-holds, arith, inl,
  inr, Bool-cases, Option-cases,
}
use parking_gate_remote.Common.Http.{Thrown}
use parking_gate_remote.Mongo.{Mongo}
use parking_gate_remote.Users.{
  Db, update_user, find_by_id, clear_session, clear_active_device, clear_all_sessions,
  delete_session, get_all_sessions,
}
use parking_gate_remote.Users.Schema.{Role, User}
use parking_gate_remote.Auth.{is_empty}
use parking_gate_remote.Auth.Tokens.{Crypto}
use parking_gate_remote.Admin.{
  AdminCall, UpdateUserDto, ResetPasswordDto, with_update, reason_ok, notify, notifies,
  finish_update, update_user_role, delete_user, reset_user_device, send_approval_email,
  admin_reset_password, admin_update_user,
}
use parking_gate_remote.Admin.Sound.{is_sound, admin_update_user_sound, with_update-id}
use parking_gate_remote.Admin.Steps.{
  AdminStep, update, set_role, delete, reset_device, send_email, set_password, approve_all,
  admin_step, admin_run,
}
use parking_gate_remote.Admin.Steps.Ids.{
  distinct, ids, update_user-ids, delete_by_id-every, delete_by_id-distinct,
}
use parking_gate_remote.Admin.Steps.Kept.{
  IsOrderly, update-IsOrderly, clear_session-IsOrderly, clear_active_device-IsOrderly,
  approve_all_pending_users-IsOrderly,
}

module _ (mongo : Mongo) (id : String) where
  notify-ids :
      (c : AdminCall) (dto : UpdateUserDto) (existing u : User) (db : Db)
      → ids (notify mongo id c dto existing u db).1.users ≡ ids db.users
  unfolding notify
  notify-ids c dto existing u db =
      if-holds (λ x. ids x.users ≡ ids db.users) (notifies c dto existing u)
        (update_user mongo id (λ x. record x { approval_email_sent_at = some c.later }) db) db
        (update_user-ids mongo id (λ x. record x { approval_email_sent_at = some c.later }) db
          (λ x. refl))
        refl

  finish_update-ids :
      (trim : String → String) (c : AdminCall) (dto : UpdateUserDto) (existing : User) (db : Db)
      → ids (finish_update mongo trim id dto c existing db).1.users ≡ ids db.users
  unfolding finish_update
  finish_update-ids trim c dto existing db = elim (Bool-cases (reason_ok trim dto existing)) [
    | inl y ↦
        let db' = update_user mongo id (with_update c.now dto existing) db in
        let same =
          update_user-ids mongo id (with_update c.now dto existing) db
            (with_update-id c.now dto existing) in
        elim (Option-cases (find_by_id mongo id db')) [
          | inl n ↦ ground (arith, y, n, same)
          | inr (u, found) ↦ ground (arith, y, found, same, notify-ids c dto existing u db')
        ]
    | inr n ↦ ground (arith, n)
  ]

  admin_update_user-ids :
      (trim : String → String) (dto : UpdateUserDto) (c : AdminCall) (db : Db)
      → ids (admin_update_user mongo trim id dto c db).1.users ≡ ids db.users
  unfolding admin_update_user
  admin_update_user-ids trim dto c db = elim (Option-cases (find_by_id mongo id db)) [
    | inl n ↦ ground (arith, n)
    | inr (u, found) ↦ ground (
      arith,
      found,
      finish_update-ids trim c dto u db,
      finish_update-ids trim c dto u (clear_session mongo id db),
      update_user-ids mongo id
          (λ x. record x {
            active_device_id = none;
            active_session_id = none;
            refresh_token_hash = none;
          })
          db (λ x. refl),
    )
  ]

  module _ (trim : String → String) where
    update_user_role-IsOrderly :
        (role : Role) (db : Db)
        → IsOrderly trim mongo db
        → IsOrderly trim mongo (update_user_role mongo id role db).1
    unfolding update_user_role
    update_user_role-IsOrderly role db h = elim (Option-cases (find_by_id mongo id db)) [
      | inl n ↦ ground (arith, n, h)
      | inr (u, found) ↦ ground (
        arith,
        found,
        update-IsOrderly trim mongo id (λ x. record x { role = role }) db (λ x. refl) (λ x k. k) h,
      )
    ]

    delete_user-IsOrderly :
        (acting : String) (db : Db)
        → IsOrderly trim mongo db
        → IsOrderly trim mongo (delete_user mongo id acting db).1
    unfolding delete_user
    delete_user-IsOrderly acting db (h, d) = elim (Bool-cases (id == acting)) [
      | inl y ↦ ground (arith, y, h, d)
      | inr n ↦ elim (Option-cases (find_by_id mongo id db)) [
        | inl k ↦ ground (arith, n, k, h, d)
        | inr (u, found) ↦ ground (
          arith,
          n,
          found,
          delete_by_id-every mongo (is_sound trim) id (clear_all_sessions mongo id db) h,
          delete_by_id-distinct mongo id (clear_all_sessions mongo id db) d,
        )
      ]
    ]

    send_approval_email-IsOrderly :
        (c : AdminCall) (failure : Thrown) (db : Db)
        → IsOrderly trim mongo db
        → IsOrderly trim mongo (send_approval_email mongo id c failure db).1
    unfolding send_approval_email
    send_approval_email-IsOrderly c failure db h = elim (Option-cases (find_by_id mongo id db)) [
      | inl n ↦ ground (arith, n, h)
      | inr (u, found) ↦ ground (
        arith,
        found,
        h,
        update-IsOrderly trim mongo id (λ x. record x { approval_email_sent_at = some c.later }) db
            (λ x. refl) (λ x k. k) h,
      )
    ]

    ended-IsOrderly :
        (db : Db)
        → IsOrderly trim mongo db
        → IsOrderly trim mongo (clear_active_device mongo id (clear_session mongo id db))
    ended-IsOrderly db h =
        clear_active_device-IsOrderly trim mongo id (clear_session mongo id db)
          (clear_session-IsOrderly trim mongo id db h)

    reset_user_device-IsOrderly :
        (device_id : String) (db : Db)
        → IsOrderly trim mongo db
        → IsOrderly trim mongo (reset_user_device mongo id device_id db).1
    unfolding reset_user_device
    reset_user_device-IsOrderly device_id db h =
        let all =
          clear_active_device mongo id (clear_session mongo id (clear_all_sessions mongo id db)) in
        let one = delete_session mongo id device_id db in
        let db1 = if device_id == "" then all else one in
        let ended = clear_active_device mongo id (clear_session mongo id db1) in
        let h1 : IsOrderly trim mongo db1 =
          if-holds (IsOrderly trim mongo) (device_id == "") all one
            (ended-IsOrderly (clear_all_sessions mongo id db) h) h in
        let db2 = if is_empty (get_all_sessions mongo id db1) then ended else db1 in
        let h2 : IsOrderly trim mongo db2 =
          if-holds (IsOrderly trim mongo) (is_empty (get_all_sessions mongo id db1)) ended db1
            (ended-IsOrderly db1 h1) h1 in
        elim (Option-cases (find_by_id mongo id db)) [
          | inl n ↦ ground (arith, n, h)
          | inr (u, found) ↦ ground (arith, found, h2)
        ]

    module _ (crypto : Crypto) where
      admin_reset_password-IsOrderly :
          (dto : ResetPasswordDto) (c : AdminCall) (db : Db)
          → IsOrderly trim mongo db
          → IsOrderly trim mongo (admin_reset_password mongo crypto id dto c db).1
      unfolding admin_reset_password
      admin_reset_password-IsOrderly dto c db h =
          let f = λ (u : User). record u { password_hash = crypto.hash c.salt dto.new_password } in
          let db' = update_user mongo id f db in
          let h' = update-IsOrderly trim mongo id f db (λ x. refl) (λ x k. k) h in
          let h2 = clear_session-IsOrderly trim mongo id (clear_all_sessions mongo id db') h' in
          elim (Bool-cases (dto.new_password == dto.confirm_password)) [
            | inl y ↦ elim (Option-cases (find_by_id mongo id db)) [
              | inl n ↦ ground (arith, y, n, h)
              | inr (u, found) ↦ elim (Option-cases (find_by_id mongo id db')) [
                | inl n ↦ ground (arith, y, found, n, h')
                | inr (v, again) ↦ ground (arith, y, found, again, h2)
              ]
            ]
            | inr n ↦ ground (arith, n, h)
          ]

module _ (mongo : Mongo) (crypto : Crypto) (trim : String → String) where
  admin_step-IsOrderly :
      (s : AdminStep) (db : Db)
      → IsOrderly trim mongo db
      → IsOrderly trim mongo (admin_step mongo crypto trim s db)
  admin_step-IsOrderly (update id dto c) db (h, d) = (
    admin_update_user_sound mongo trim id dto c db h,
    ap distinct (admin_update_user-ids mongo id trim dto c db) ∙ d,
  )
  admin_step-IsOrderly (set_role id role) db h = update_user_role-IsOrderly mongo id trim role db h
  admin_step-IsOrderly (delete id acting) db h = delete_user-IsOrderly mongo id trim acting db h
  admin_step-IsOrderly (reset_device id device) db h =
      reset_user_device-IsOrderly mongo id trim device db h
  admin_step-IsOrderly (send_email id c failure) db h =
      send_approval_email-IsOrderly mongo id trim c failure db h
  admin_step-IsOrderly (set_password id dto c) db h =
      admin_reset_password-IsOrderly mongo id trim crypto dto c db h
  admin_step-IsOrderly (approve_all now email_sent) db h =
      approve_all_pending_users-IsOrderly trim mongo now email_sent db h

  -- Whatever calls of an admin follow one another, however each ends: if no two users had one id and
  -- each user was in order, that is so at the end. In order is an approved user with the time of the
  -- approval, no time of a rejection and no reason; a rejected one with the time of the rejection, no
  -- time of an approval, a reason that is not blank and no active device; a pending or archived one
  -- with no reason, no active device and not both times.
  pub admin_run-IsOrderly :
      (ss : List AdminStep) (db : Db)
      → IsOrderly trim mongo db
      → IsOrderly trim mongo (admin_run mongo crypto trim ss db)
  admin_run-IsOrderly [] db h = h
  admin_run-IsOrderly (s ∷ ss) db h =
      admin_run-IsOrderly ss (admin_step mongo crypto trim s db) (admin_step-IsOrderly s db h)
