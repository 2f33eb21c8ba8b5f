-- ===== src/Admin/Steps/Kept.antt =====
-- What all calls of an admin keep (backend/src/admin/admin.service.ts).
use parking_gate_remote.Common.{
  ℕ, zero, suc, String, ◌≡◌, refl, ap, sym, ◌∙◌, Bool, true, false, not, none, List, [], ◌∷◌, ◌==◌,
  ◌&&◌, ◌||◌, if◌then◌else◌, if-holds, any, every, select, take, update_first, any-Perm, arith,
  eq_iff, inl, inr, Bool-cases,
}
use parking_gate_remote.Mongo.{Mongo}
use parking_gate_remote.Users.{Db, has_id, update_user, clear_session, clear_active_device}
use parking_gate_remote.Users.Schema.{User}
use parking_gate_remote.Admin.Sound.{absent, is_sound, goes_with-cleared}
use parking_gate_remote.Admin.Steps.{
  is_pending, pending_users, with_approval, with_email_sent, approve_one, approve_each,
  approve_all_pending_users,
}
use parking_gate_remote.Admin.Steps.Ids.{distinct, ids, update_user-every, update_user-ids}

-- A user who has this id has no reason for a rejection.
abbrev free : String → User → Bool
free i x = not (x.id == i) || absent x.rejection_reason

every-and :
    (p q : User → Bool) (us : List User)
    → every p us ≡ true
    → every q us ≡ true
    → every (λ u. p u && q u) us ≡ true
every-and p q [] h k = refl
every-and p q (u ∷ us) h k = ground (arith, h, k, every-and p q us)

every-implies :
    (p q : User → Bool) (us : List User)
    → ((u : User) → p u ≡ true → q u ≡ true)
    → every p us ≡ true
    → every q us ≡ true
every-implies p q [] g h = refl
every-implies p q (u ∷ us) g h = ground (arith, h, g u, every-implies p q us g)

every-take :
    (p : User → Bool) (n : ℕ) (us : List User) → every p us ≡ true → every p (take n us) ≡ true
every-take p zero us h = refl
every-take p (suc n) [] h = refl
every-take p (suc n) (u ∷ us) h = ground (arith, h, every-take p n us)

every-any : (p : User → Bool) (us : List User) → every p us ≡ not (any (λ u. not (p u)) us)
every-any p [] = refl
every-any p (u ∷ us) = ground (arith, every-any p us)

absent_id :
    (i : String) (us : List User) → any (λ y. y == i) (ids us) ≡ false → every (free i) us ≡ true
absent_id i [] h = refl
absent_id i (u ∷ us) h = ground (arith, h, absent_id i us)

others_free :
    (x : User) (us : List User)
    → any (λ y. y == x.id) (ids us) ≡ false
    → every (λ v. free v.id x) (select is_pending us) ≡ true
others_free x [] h = refl
others_free x (u ∷ us) h = ground (arith, h, eq_iff x.id u.id, eq_iff u.id x.id, others_free x us)

module _ (trim : String → String) where
  sound-free :
      (u : User) → is_sound trim u ≡ true → is_pending u ≡ true → absent u.rejection_reason ≡ true
  sound-free u h k = ground (arith, h, k)

  -- Those who are pending share their id with no user who has a reason.
  pending-free :
      (us : List User)
      → every (is_sound trim) us ≡ true
      → distinct (ids us) ≡ true
      → every (λ v. every (free v.id) us) (select is_pending us) ≡ true
  pending-free [] h d = refl
  pending-free (u ∷ us) h d =
      let tail =
        every-and (λ v. free v.id u) (λ v. every (free v.id) us) (select is_pending us)
          (others_free u us (ground (arith, d)))
          (pending-free us (ground (arith, h)) (ground (arith, d))) in
      elim (Bool-cases (is_pending u)) [
        | inl e ↦ ground (
          arith,
          e,
          tail,
          sound-free u (ground (arith, h)) e,
          absent_id u.id us (ground (arith, d)),
        )
        | inr e ↦ ground (arith, e, tail)
      ]

abbrev cleared : User → User
cleared u = record u {
  active_device_id = none;
  active_session_id = none;
  refresh_token_hash = none;
}

abbrev without_device : User → User
without_device u = record u { active_device_id = none }

approve-guarded :
    (trim : String → String) (now : ℕ) (i : String) (u : User)
    → (u.id == i) ≡ true
    → (is_sound trim u && free i u) ≡ true
    → (is_sound trim (with_approval now u) && free i (with_approval now u)) ≡ true
approve-guarded trim now i u e h = ground (arith, e, h)

every-update_where :
    (p q : User → Bool) (f : User → User) (us : List User)
    → ((u : User) → p u ≡ true → q u ≡ true → q (f u) ≡ true)
    → every q us ≡ true
    → every q (update_first p f us) ≡ true
every-update_where p q f [] g h = refl
every-update_where p q f (u ∷ us) g h = ground (arith, h, g u, every-update_where p q f us g)

module _ (trim : String → String) where
  cleared_sound : (u : User) → is_sound trim u ≡ true → is_sound trim (cleared u) ≡ true
  cleared_sound u h =
      goes_with-cleared trim u.status u.approved_at u.rejected_at u.rejection_reason
        u.active_device_id h

  without_device_sound :
      (u : User) → is_sound trim u ≡ true → is_sound trim (without_device u) ≡ true
  without_device_sound u h =
      goes_with-cleared trim u.status u.approved_at u.rejected_at u.rejection_reason
        u.active_device_id h

  module _ (mongo : Mongo) where
    -- Each user is in order, and no two have one id.
    abbrev pub IsOrderly : Db → Type 0
    IsOrderly db = (every (is_sound trim) db.users ≡ true) × (distinct (ids db.users) ≡ true)

    pub update-IsOrderly :
        (id : String) (f : User → User) (db : Db)
        → ((u : User) → (f u).id ≡ u.id)
        → ((u : User) → is_sound trim u ≡ true → is_sound trim (f u) ≡ true)
        → IsOrderly db
        → IsOrderly (update_user mongo id f db)
    update-IsOrderly id f db same sound (h, d) = (
      update_user-every mongo (is_sound trim) id f db sound h,
      ap distinct (update_user-ids mongo id f db same) ∙ d,
    )

    pub clear_session-IsOrderly :
        (id : String) (db : Db) → IsOrderly db → IsOrderly (clear_session mongo id db)
    clear_session-IsOrderly id db = update-IsOrderly id cleared db (λ u. refl) cleared_sound

    pub clear_active_device-IsOrderly :
        (id : String) (db : Db) → IsOrderly db → IsOrderly (clear_active_device mongo id db)
    clear_active_device-IsOrderly id db =
        update-IsOrderly id without_device db (λ u. refl) without_device_sound

    approved-IsOrderly :
        (now : ℕ) (id : String) (db : Db)
        → every (free id) db.users ≡ true
        → IsOrderly db
        → IsOrderly (update_user mongo id (with_approval now) db)
    approved-IsOrderly now id db k (h, d) = (
      every-implies (λ x. is_sound trim x && free id x) (is_sound trim)
          (update_user mongo id (with_approval now) db).users (λ x e. ground (arith, e))
          (ap (every (λ x. is_sound trim x && free id x))
              (mongo.update_one_lem User (has_id id) (with_approval now) db.users)
            ∙ every-update_where (has_id id) (λ x. is_sound trim x && free id x) (with_approval now)
                db.users (approve-guarded trim now id)
                (every-and (is_sound trim) (free id) db.users h k)),
      ap distinct (update_user-ids mongo id (with_approval now) db (λ u. refl)) ∙ d,
    )

    mailed : ℕ → (String → Bool) → User → Db → Db
    mailed now email_sent u db =
        if email_sent u.email then update_user mongo u.id (with_email_sent now) db else db

    mailed-IsOrderly :
        (now : ℕ) (email_sent : String → Bool) (u : User) (db : Db)
        → IsOrderly db
        → IsOrderly (mailed now email_sent u db)
    unfolding mailed
    mailed-IsOrderly now email_sent u db h =
        if-holds IsOrderly (email_sent u.email) (update_user mongo u.id (with_email_sent now) db) db
          (update-IsOrderly u.id (with_email_sent now) db (λ x. refl) (λ x k. k) h) h

    approve_one-IsOrderly :
        (now : ℕ) (email_sent : String → Bool) (u : User) (db : Db)
        → every (free u.id) db.users ≡ true
        → IsOrderly db
        → IsOrderly (approve_one mongo now email_sent u db)
    unfolding approve_one mailed
    approve_one-IsOrderly now email_sent u db k h =
        let db1 = update_user mongo u.id (with_approval now) db in
        let db2 = mailed now email_sent u db1 in
        clear_active_device-IsOrderly u.id (clear_session mongo u.id db2) (
          clear_session-IsOrderly u.id db2
            (mailed-IsOrderly now email_sent u db1 (approved-IsOrderly now u.id db k h)))

    approve_one-free :
        (i : String) (now : ℕ) (email_sent : String → Bool) (u : User) (db : Db)
        → every (free i) db.users ≡ true
        → every (free i) (approve_one mongo now email_sent u db).users ≡ true
    unfolding approve_one mailed
    approve_one-free i now email_sent u db k =
        let db1 = update_user mongo u.id (with_approval now) db in
        let db2 = mailed now email_sent u db1 in
        let k1 = update_user-every mongo (free i) u.id (with_approval now) db (λ x e. e) k in
        let k2 : every (free i) db2.users ≡ true =
          if-holds (λ x. every (free i) x.users ≡ true) (email_sent u.email)
            (update_user mongo u.id (with_email_sent now) db1) db1
            (update_user-every mongo (free i) u.id (with_email_sent now) db1 (λ x e. e) k1) k1 in
        let k3 = update_user-every mongo (free i) u.id cleared db2 (λ x e. e) k2 in
        update_user-every mongo (free i) u.id without_device (clear_session mongo u.id db2)
          (λ x e. e) k3

    approve_each-IsOrderly :
        (now : ℕ) (email_sent : String → Bool) (us : List User) (db : Db)
        → every (λ v. every (free v.id) db.users) us ≡ true
        → IsOrderly db
        → IsOrderly (approve_each mongo now email_sent us db).1
    unfolding approve_each
    approve_each-IsOrderly now email_sent [] db k h = h
    approve_each-IsOrderly now email_sent (u ∷ us) db k h =
        let db' = approve_one mongo now email_sent u db in
        approve_each-IsOrderly now email_sent us db'
          (every-implies (λ v. every (free v.id) db.users) (λ v. every (free v.id) db'.users) us
            (λ v. approve_one-free v.id now email_sent u db) (ground (arith, k)))
          (approve_one-IsOrderly now email_sent u db (ground (arith, k)) h)

    found-free :
        (db : Db)
        → IsOrderly db
        → every (λ v. every (free v.id) db.users) (pending_users mongo db) ≡ true
    found-free db (h, d) =
        let p = λ (v : User). every (free v.id) db.users in
        let found = mongo.find_sorted User is_pending (λ u. u.created_at) db.users in
        every-take p 10000 found (
          every-any p found
          ∙ ap not (
              any-Perm (λ v. not (p v)) found (select is_pending db.users)
                (mongo.find_sorted-perm User is_pending (λ u. u.created_at) db.users))
          ∙ sym (every-any p (select is_pending db.users))
          ∙ pending-free trim db.users h d)

    pub approve_all_pending_users-IsOrderly :
        (now : ℕ) (email_sent : String → Bool) (db : Db)
        → IsOrderly db
        → IsOrderly (approve_all_pending_users mongo now email_sent db).1
    unfolding approve_all_pending_users
    approve_all_pending_users-IsOrderly now email_sent db h =
        approve_each-IsOrderly now email_sent (pending_users mongo db) db (found-free db h) h
