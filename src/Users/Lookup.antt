-- ===== src/Users/Lookup.antt =====
-- Finding a user by id after a write (backend/src/users/users.service.ts).
use parking_gate_remote.Common.{
  String, ◌≡◌, sym, ap, ◌∙◌, some, ◌==◌, first, first-passes, first-update_first,
}
use parking_gate_remote.Mongo.{Mongo}
use parking_gate_remote.Users.{Db, has_id, find_by_id, update_user}
use parking_gate_remote.Users.Schema.{User}

module _ (mongo : Mongo) (id : String) (u : User) (db : Db)
    (found : find_by_id mongo id db ≡ some u) where
  pub first_found : first (has_id id) db.users ≡ some u
  first_found = sym (mongo.find_one_lem User (has_id id) db.users) ∙ found

  -- A user who is updated, with the id kept, is found as updated.
  pub update_user-found :
      (f : User → User)
      → (f u).id ≡ u.id
      → find_by_id mongo id (update_user mongo id f db) ≡ some (f u)
  update_user-found f same =
      mongo.find_one_lem User (has_id id) (mongo.update_one User (has_id id) f db.users)
      ∙ ap (first (has_id id)) (mongo.update_one_lem User (has_id id) f db.users)
      ∙ first-update_first (has_id id) f db.users u first_found
          (ap (λ i. i == id) same ∙ first-passes (has_id id) db.users u first_found)
