-- ===== src/Admin/Devices.antt =====
-- Resetting the devices of a user (`resetUserDevice` of backend/src/admin/admin.service.ts).
use parking_gate_remote.Common.{
  String, ◌≡◌, refl, ap, ◌∙◌, none, some, [], arith, select, reject, select-reject,
}
use parking_gate_remote.Common.Http.{ok}
use parking_gate_remote.Mongo.{Mongo}
use parking_gate_remote.Users.{
  Db, of_user, find_by_id, get_all_sessions, clear_session, clear_active_device, clear_all_sessions,
}
use parking_gate_remote.Users.Lookup.{update_user-found}
use parking_gate_remote.Users.Schema.{User, Session}
use parking_gate_remote.Admin.{reset_user_device}

module _ (mongo : Mongo) (id : String) where
  abbrev pub offline : User → User
  offline u = record u {
    active_device_id = none;
    active_session_id = none;
    refresh_token_hash = none;
  }

  abbrev pub forget : Db → Db
  forget db = clear_active_device mongo id (clear_session mongo id db)

  pub forget-found :
      (u : User) (db : Db)
      → find_by_id mongo id db ≡ some u
      → find_by_id mongo id (forget db) ≡ some (offline u)
  forget-found u db found =
      update_user-found mongo id (offline u) (clear_session mongo id db)
        (update_user-found mongo id u db found offline refl)
        (λ x. record x { active_device_id = none }) refl

  pub all_ended : (db : Db) → get_all_sessions mongo id (clear_all_sessions mongo id db) ≡ []
  all_ended db =
      mongo.find_lem Session (of_user id) (mongo.delete_many Session (of_user id) db.sessions)
      ∙ ap (select (of_user id)) (mongo.delete_many_lem Session (of_user id) db.sessions)
      ∙ select-reject (of_user id) db.sessions

  -- A reset of all devices of a user who exists succeeds: it ends every session of the user and
  -- of no one else, and the user, who is the answer, has no active device, session or token left.
  pub reset_user_device_all :
      (db : Db) (u : User)
      → find_by_id mongo id db ≡ some u
      → ((reset_user_device mongo id "" db).0 ≡ ok (offline u))
        × (find_by_id mongo id ((reset_user_device mongo id "" db).1) ≡ some (offline u))
        × ((reset_user_device mongo id "" db).1.sessions ≡ reject (of_user id) db.sessions)
  unfolding reset_user_device
  reset_user_device_all db u found = ground (
    arith,
    found,
    all_ended db,
    forget-found (offline u) (forget (clear_all_sessions mongo id db))
        (forget-found u (clear_all_sessions mongo id db) found),
    mongo.delete_many_lem Session (of_user id) db.sessions,
  )
