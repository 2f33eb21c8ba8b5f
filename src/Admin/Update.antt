-- ===== src/Admin/Update.antt =====
-- What an update by an admin that is not refused leaves (updateUser and updateUserRole of
-- backend/src/admin/admin.service.ts).
use parking_gate_remote.Common.{
  String, ◌≡◌, refl, inl, inr, true, none, some, ap, Bool-cases, arith, if◌then◌else◌,
}
use parking_gate_remote.Common.Http.{Result, ok}
use parking_gate_remote.Mongo.{Mongo}
use parking_gate_remote.Users.{Db, find_by_id, update_user, clear_session}
use parking_gate_remote.Users.Lookup.{update_user-found}
use parking_gate_remote.Users.Schema.{User, Role}
use parking_gate_remote.Admin.{
  AdminCall, UpdateUserDto, ends_session, reason_ok, with_update, notify, notifies, finish_update,
  admin_update_user, update_user_role, given,
}
use parking_gate_remote.Admin.Sound.{with_update-id}

-- The user as the end of the session leaves it.
abbrev pub signed_off : User → User
signed_off u = record u {
  active_device_id = none;
  active_session_id = none;
  refresh_token_hash = none;
}

-- The user with the time of the e-mail, if one goes out.
abbrev pub with_mail : AdminCall → UpdateUserDto → User → User → User
with_mail c dto existing u =
    if notifies c dto existing u then record u { approval_email_sent_at = some c.later } else u

-- The user that an update leaves.
abbrev pub updated : AdminCall → UpdateUserDto → User → User
updated c dto u =
    with_mail c dto u
      (with_update c.now dto u (if ends_session dto.status then signed_off u else u))

module _ (mongo : Mongo) (id : String) where
  -- A call succeeds, and its answer is stored.
  abbrev pub Stores : User → Result User × Db → Type 0
  Stores v (answer, db) = (answer ≡ ok v) × (find_by_id mongo id db ≡ some v)

  pub update_user_role-Stores :
      (role : Role) (u : User) (db : Db)
      → find_by_id mongo id db ≡ some u
      → Stores (record u { role = role }) (update_user_role mongo id role db)
  unfolding update_user_role
  update_user_role-Stores role u db found =
      ground
        (arith, found, update_user-found mongo id u db found (λ x. record x { role = role }) refl)

  notify-Stores :
      (c : AdminCall) (dto : UpdateUserDto) (existing u : User) (db : Db)
      → find_by_id mongo id db ≡ some u
      → Stores (with_mail c dto existing u) (notify mongo id c dto existing u db)
  unfolding notify
  notify-Stores c dto existing u db found = elim (Bool-cases (notifies c dto existing u)) [
    | inl y ↦
        let stored =
          update_user-found mongo id u db found
            (λ x. record x { approval_email_sent_at = some c.later }) refl in
        rw y (ap (λ o. ok (given o u)) stored, stored)
    | inr n ↦ rw n (refl, found)
  ]

  finish_update-Stores :
      (trim : String → String) (c : AdminCall) (dto : UpdateUserDto) (existing u : User) (db : Db)
      → find_by_id mongo id db ≡ some u
      → reason_ok trim dto existing ≡ true
      → Stores
          (with_mail c dto existing (with_update c.now dto existing u))
          (finish_update mongo trim id dto c existing db)
  unfolding finish_update
  finish_update-Stores trim c dto existing u db found fine =
      let stored =
        update_user-found mongo id u db found (with_update c.now dto existing)
          (with_update-id c.now dto existing u) in
      rw (fine, stored)
        (notify-Stores c dto existing (with_update c.now dto existing u)
          (update_user mongo id (with_update c.now dto existing) db) stored)

  -- An update of a user who exists that is not refused for want of a reason.
  pub admin_update_user-Stores :
      (trim : String → String) (c : AdminCall) (dto : UpdateUserDto) (u : User) (db : Db)
      → find_by_id mongo id db ≡ some u
      → reason_ok trim dto u ≡ true
      → Stores (updated c dto u) (admin_update_user mongo trim id dto c db)
  unfolding admin_update_user
  admin_update_user-Stores trim c dto u db found fine =
      elim (Bool-cases (ends_session dto.status)) [
        | inl y ↦
            rw (found, y)
              (finish_update-Stores trim c dto u (signed_off u) (clear_session mongo id db)
                (update_user-found mongo id u db found signed_off refl) fine)
        | inr n ↦ rw (found, n) (finish_update-Stores trim c dto u u db found fine)
      ]
