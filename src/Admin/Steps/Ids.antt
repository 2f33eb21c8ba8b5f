-- ===== src/Admin/Steps/Ids.antt =====
-- That the operations of an admin keep what each user of a database is asked for, and that no two
-- users have one id (backend/src/admin/admin.service.ts).
use parking_gate_remote.Common.{
  String, ◌≡◌, refl, ap, ◌∙◌, Bool, true, false, not, List, [], ◌∷◌, ◌==◌, ◌&&◌, map, any, every,
  update_first, remove_first, arith,
}
use parking_gate_remote.Mongo.{Mongo}
use parking_gate_remote.Users.{Db, has_id, update_user, delete_by_id}
use parking_gate_remote.Users.Schema.{User}

abbrev pub distinct : List String → Bool
distinct [] = true
distinct (x ∷ xs) = not (any (λ y. y == x) xs) && distinct xs

abbrev pub ids : List User → List String
ids us = map (λ u. u.id) us

every-update_any :
    (p q : User → Bool) (f : User → User) (us : List User)
    → ((u : User) → q u ≡ true → q (f u) ≡ true)
    → every q us ≡ true
    → every q (update_first p f us) ≡ true
every-update_any p q f [] g h = refl
every-update_any p q f (u ∷ us) g h = ground (arith, h, g u, every-update_any p q f us g)

every-remove :
    (p q : User → Bool) (us : List User) → every q us ≡ true → every q (remove_first p us) ≡ true
every-remove p q [] h = refl
every-remove p q (u ∷ us) h = ground (arith, h, every-remove p q us)

ids-update :
    (p : User → Bool) (f : User → User) (us : List User)
    → ((u : User) → (f u).id ≡ u.id)
    → ids (update_first p f us) ≡ ids us
ids-update p f [] g = refl
ids-update p f (u ∷ us) g = ground (arith, g u, ids-update p f us g)

any-remove :
    (p : User → Bool) (x : String) (us : List User)
    → any (λ y. y == x) (ids us) ≡ false
    → any (λ y. y == x) (ids (remove_first p us)) ≡ false
any-remove p x [] h = refl
any-remove p x (u ∷ us) h = ground (arith, h, any-remove p x us)

distinct-remove :
    (p : User → Bool) (us : List User)
    → distinct (ids us) ≡ true
    → distinct (ids (remove_first p us)) ≡ true
distinct-remove p [] h = refl
distinct-remove p (u ∷ us) h = ground (arith, h, any-remove p u.id us, distinct-remove p us)

module _ (mongo : Mongo) where
  pub update_user-every :
      (q : User → Bool) (id : String) (f : User → User) (db : Db)
      → ((u : User) → q u ≡ true → q (f u) ≡ true)
      → every q db.users ≡ true
      → every q (update_user mongo id f db).users ≡ true
  update_user-every q id f db g h =
      ap (every q) (mongo.update_one_lem User (has_id id) f db.users)
      ∙ every-update_any (has_id id) q f db.users g h

  pub update_user-ids :
      (id : String) (f : User → User) (db : Db)
      → ((u : User) → (f u).id ≡ u.id)
      → ids (update_user mongo id f db).users ≡ ids db.users
  update_user-ids id f db g =
      ap ids (mongo.update_one_lem User (has_id id) f db.users)
      ∙ ids-update (has_id id) f db.users g

  pub delete_by_id-every :
      (q : User → Bool) (id : String) (db : Db)
      → every q db.users ≡ true
      → every q (delete_by_id mongo id db).users ≡ true
  delete_by_id-every q id db h =
      ap (every q) (mongo.delete_one_lem User (has_id id) db.users)
      ∙ every-remove (has_id id) q db.users h

  pub delete_by_id-distinct :
      (id : String) (db : Db)
      → distinct (ids db.users) ≡ true
      → distinct (ids (delete_by_id mongo id db).users) ≡ true
  delete_by_id-distinct id db h =
      ap (λ us. distinct (ids us)) (mongo.delete_one_lem User (has_id id) db.users)
      ∙ distinct-remove (has_id id) db.users h
