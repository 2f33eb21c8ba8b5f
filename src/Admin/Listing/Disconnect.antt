-- ===== src/Admin/Listing/Disconnect.antt =====
-- The list of a user's devices after a device is disconnected (resetUserDevice and getUsers of
-- backend/src/admin/admin.service.ts).
use parking_gate_remote.Common.{
  ℕ, String, ◌≡◌, refl, sym, ap, ◌∙◌, subst, Bool, true, false, some, List, [], ◌∷◌, map, ◌==◌,
  arith, inl, inr, any, select, reject, Bool-cases, if◌then◌else◌,
}
use parking_gate_remote.Mongo.{Mongo}
use parking_gate_remote.Users.{
  Db, of_user, of_device, find_by_id, get_all_sessions, delete_session, clear_all_sessions,
}
use parking_gate_remote.Users.Schema.{User, Session}
use parking_gate_remote.Auth.{is_empty}
use parking_gate_remote.Admin.{reset_user_device}
use parking_gate_remote.Admin.Devices.{offline, forget, forget-found, all_ended}
use parking_gate_remote.Admin.Listing.{ActiveDevice, device_of, devices_of}

abbrev pub is_device : String → ActiveDevice → Bool
is_device d a = a.device_id == d

select-of_device :
    (id d : String) (ss : List Session)
    → map device_of (select (of_user id) (reject (of_device id d) ss))
      ≡ reject (is_device d) (map device_of (select (of_user id) ss))
select-of_device id d [] = refl
select-of_device id d (s ∷ ss) = ground (arith, select-of_device id d ss)

any-reject_same :
    (d : String) (ds : List ActiveDevice) → any (is_device d) (reject (is_device d) ds) ≡ false
any-reject_same d [] = refl
any-reject_same d (a ∷ ds) = ground (arith, any-reject_same d ds)

-- The list after a reset of one device, or of all if none is named.
abbrev pub left_over : String → List ActiveDevice → List ActiveDevice
left_over d ds = if d == "" then [] else reject (is_device d) ds

any-left_over : (d : String) (ds : List ActiveDevice) → any (is_device d) (left_over d ds) ≡ false
any-left_over d ds = ground (arith, any-reject_same d ds)

module _ (mongo : Mongo) (updated_at : User → ℕ) (id : String) where
  -- The devices that a user is listed with.
  abbrev pub shown : User → Db → List ActiveDevice
  shown u db = devices_of updated_at u (get_all_sessions mongo id db)

  -- What the last part of `resetUserDevice` leaves: the user, listed with the sessions that are left.
  abbrev tidied : Db → Db
  tidied db = if is_empty (get_all_sessions mongo id db) then forget mongo id db else db

  sessions-reset :
      (d : String) (db : Db)
      → (d == "" ≡ false)
      → map device_of (get_all_sessions mongo id (delete_session mongo id d db))
        ≡ reject (is_device d) (map device_of (get_all_sessions mongo id db))
  sessions-reset d db h = ground (
    arith,
    h,
    mongo.find_lem Session (of_user id) (mongo.delete_many Session (of_device id d) db.sessions),
    mongo.find_lem Session (of_user id) db.sessions,
    mongo.delete_many_lem Session (of_device id d) db.sessions,
    select-of_device id d db.sessions,
  )

  abbrev Listed : Db → List ActiveDevice → Type 0
  Listed db ds = (u : User) × (find_by_id mongo id db ≡ some u) × (shown u db ≡ ds)

  devices-empty :
      (u : User) (ss : List Session)
      → is_empty ss ≡ true
      → devices_of updated_at (offline mongo id u) ss ≡ map device_of ss
  devices-empty u [] h = refl
  devices-empty u (s ∷ ss) h = ground arith

  devices-full :
      (u : User) (ss : List Session)
      → is_empty ss ≡ false
      → devices_of updated_at u ss ≡ map device_of ss
  devices-full u [] h = ground arith
  devices-full u (s ∷ ss) h = refl

  tidied-Listed :
      (db : Db) (u : User)
      → find_by_id mongo id db ≡ some u
      → Listed (tidied db) (map device_of (get_all_sessions mongo id db))
  tidied-Listed db u found = elim (Bool-cases (is_empty (get_all_sessions mongo id db))) [
    | inl gone ↦
        subst
          (λ b.
            Listed (if b then forget mongo id db else db)
              (map device_of (get_all_sessions mongo id db)))
          (sym gone)
          (
            offline mongo id u,
            forget-found mongo id u db found,
            devices-empty u (get_all_sessions mongo id db) gone,
          )
    | inr left ↦
        subst
          (λ b.
            Listed (if b then forget mongo id db else db)
              (map device_of (get_all_sessions mongo id db)))
          (sym left) (u, found, devices-full u (get_all_sessions mongo id db) left)
  ]

  -- The state that the last part of `resetUserDevice` finds.
  abbrev removed : String → Db → Db
  removed d db =
      if d == ""
      then forget mongo id (clear_all_sessions mongo id db)
      else delete_session mongo id d db

  -- What is to be shown of the two, by the test whether no device is named.
  abbrev ByChoice : String → Db → Bool → Type 0
  ByChoice d db b =
      Listed
        (tidied (
          if b
          then forget mongo id (clear_all_sessions mongo id db)
          else delete_session mongo id d db))
        (if b then [] else reject (is_device d) (map device_of (get_all_sessions mongo id db)))

  removed-Listed :
      (d : String) (u : User) (db : Db)
      → find_by_id mongo id db ≡ some u
      → Listed (tidied (removed d db)) (left_over d (map device_of (get_all_sessions mongo id db)))
  removed-Listed d u db found = elim (Bool-cases (d == "")) [
    | inl all ↦ subst (ByChoice d db) (sym all) (
        subst
          (λ ss.
            Listed (tidied (forget mongo id (clear_all_sessions mongo id db))) (map device_of ss))
          (all_ended mongo id db)
          (tidied-Listed (forget mongo id (clear_all_sessions mongo id db)) (offline mongo id u)
            (forget-found mongo id u (clear_all_sessions mongo id db) found)))
    | inr one ↦ subst (ByChoice d db) (sym one) (
        subst (Listed (tidied (delete_session mongo id d db))) (sessions-reset d db one)
          (tidied-Listed (delete_session mongo id d db) u found))
  ]

  reset_user_device-tidied :
      (d : String) (u : User) (db : Db)
      → find_by_id mongo id db ≡ some u
      → (reset_user_device mongo id d db).1 ≡ tidied (removed d db)
  unfolding reset_user_device
  reset_user_device-tidied d u db found = ground (arith, found)

  -- After a device of a user who exists is disconnected, the user is listed with the devices of the
  -- sessions there were but this one, or with none if no device was named: neither the device nor an
  -- entry without a session is in the list.
  pub reset_user_device-shown :
      (d : String) (u : User) (db : Db)
      → find_by_id mongo id db ≡ some u
      → (v : User) × (find_by_id mongo id ((reset_user_device mongo id d db).1) ≡ some v)
        × (shown v ((reset_user_device mongo id d db).1)
            ≡ left_over d (map device_of (get_all_sessions mongo id db)))
        × (any (is_device d) (shown v ((reset_user_device mongo id d db).1)) ≡ false)
  reset_user_device-shown d u db found =
      let (v, here, list) = removed-Listed d u db found in
      let ds = map device_of (get_all_sessions mongo id db) in
      subst
        (λ after.
          (v : User) × (find_by_id mongo id after ≡ some v)
          × (shown v after ≡ left_over d ds)
          × (any (is_device d) (shown v after) ≡ false))
        (sym (reset_user_device-tidied d u db found))
        (v, here, list, ap (any (is_device d)) list ∙ any-left_over d ds)
