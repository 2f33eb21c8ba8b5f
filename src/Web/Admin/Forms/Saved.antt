-- ===== src/Web/Admin/Forms/Saved.antt =====
-- What the requests of the edit form leave on the server: handleEditUser and openEditModal of
-- frontend/src/app/admin/AdminPageContent.tsx with backend/src/admin/admin.service.ts.
use parking_gate_remote.Common.{
  ℕ, String, ℤ, ◌≡◌, refl, sym, ap, ◌∙◌, subst, inl, inr, true, false, Option, none, some, List, [],
  ◌∷◌, ◌==◌, ◌&&◌, ◌||◌, if◌then◌else◌, Bool-cases, arith, Bool, not,
}
use parking_gate_remote.Common.Text.{codes}
use parking_gate_remote.Common.Http.{Thrown, Result, ok, err}
use parking_gate_remote.Mongo.{Mongo}
use parking_gate_remote.Users.{Db, find_by_id}
use parking_gate_remote.Users.Schema.{User, Session, Role, user, admin}
use parking_gate_remote.Auth.Tokens.{Crypto}
use parking_gate_remote.Admin.{
  AdminCall, UpdateUserDto, reason_ok, admin_update_user, update_user_role, is_rejected,
}
use parking_gate_remote.Admin.Update.{updated, admin_update_user-Stores, update_user_role-Stores}
use parking_gate_remote.Admin.Validators.{ClassValidator, meets_both, update_passes, not_valid}
use parking_gate_remote.Admin.Listing.{UserItem, user_item}
use parking_gate_remote.Web.Phone.{validate_phone_number}
use parking_gate_remote.Web.Phone.Parts.{join}
use parking_gate_remote.Web.Phone.Pattern.{matches_phone}
use parking_gate_remote.Web.Numerals.{parse_int}
use parking_gate_remote.Web.Trim.{trim, trim_twice}
use parking_gate_remote.Web.Admin.Server.{serve, submit}
use parking_gate_remote.Web.Admin.Forms.{
  EditForm, AdminRequest, patch_user, patch_role, asks, edit_body, role_request, edit_requests,
  edit_numbers, handle_edit_user, same_role,
}

-- The user has what the form says.
abbrev pub Saved : EditForm → User → Type 0
Saved form v =
    (v.first_name ≡ form.first_name)
    × (v.last_name ≡ form.last_name)
    × (v.phone ≡ join form.phone_prefix form.phone_number)
    × (parse_int form.apartment_number ≡ some v.apartment_number)
    × (parse_int form.floor ≡ some v.floor)
    × (v.status ≡ form.status)
    × (v.role ≡ form.role)
    × (v.rejection_reason
        ≡ (if is_rejected form.status then some (trim form.rejection_reason) else none))

-- The requests that the form makes, with what its tests have found.
abbrev Requests : UserItem → EditForm → List AdminRequest → Type 0
Requests u form rs =
    (a : ℤ) × (f : ℤ) × (parse_int form.apartment_number ≡ some a)
    × (parse_int form.floor ≡ some f)
    × ((is_rejected form.status && trim form.rejection_reason == "") ≡ false)
    × (rs ≡ patch_user u.id (edit_body form a f) ∷ role_request u form)

edit_requests-asks :
    (u : UserItem) (form : EditForm) (a f : ℤ) (rs : List AdminRequest)
    → edit_requests u form a f ≡ asks rs
    → ((is_rejected form.status && trim form.rejection_reason == "") ≡ false)
      × (rs ≡ patch_user u.id (edit_body form a f) ∷ role_request u form)
edit_requests-asks u form a f rs h =
    elim (Bool-cases (form.phone_prefix == "" || form.phone_number == "")) [
      | inl y ↦ ground (arith, y, h)
      | inr n ↦ elim (Bool-cases (validate_phone_number form.phone_prefix form.phone_number)) [
        | inl valid ↦
            elim (Bool-cases (is_rejected form.status && trim form.rejection_reason == "")) [
              | inl blank ↦ ground (arith, n, valid, blank, h)
              | inr good ↦ ground (arith, n, valid, good, h)
            ]
        | inr invalid ↦ ground (arith, n, invalid, h)
      ]
    ]

handle_edit_user-Requests :
    (u : UserItem) (form : EditForm) (rs : List AdminRequest)
    → handle_edit_user (some u) form ≡ asks rs
    → Requests u form rs
unfolding handle_edit_user
handle_edit_user-Requests u form rs h =
    go (parse_int form.apartment_number) (parse_int form.floor) refl refl h
  where
    go :
        (a f : Option ℤ)
        → parse_int form.apartment_number ≡ a
        → parse_int form.floor ≡ f
        → edit_numbers u form a f ≡ asks rs
        → Requests u form rs
    go (some a) (some f) i j k =
        let (good, same) = edit_requests-asks u form a f rs k in (a, f, i, j, good, same)
    go (some a) none i j k = ground (arith, k)
    go none f i j k = ground (arith, k)

reason_ok-edit_body :
    (form : EditForm) (a f : ℤ) (u : User)
    → (is_rejected form.status && trim form.rejection_reason == "") ≡ false
    → reason_ok trim (edit_body form a f) u ≡ true
reason_ok-edit_body form a f u h = ground (arith, h, trim_twice form.rejection_reason)

abbrev HasProfile : EditForm → User → Type 0
HasProfile form v =
    (v.first_name ≡ form.first_name)
    × (v.last_name ≡ form.last_name)
    × (v.phone ≡ join form.phone_prefix form.phone_number)
    × (v.status ≡ form.status)
    × (v.rejection_reason
        ≡ (if is_rejected form.status then some (trim form.rejection_reason) else none))

updated-edit_body :
    (c : AdminCall) (form : EditForm) (a f : ℤ) (u : User)
    → HasProfile form (updated c (edit_body form a f) u)
      × ((updated c (edit_body form a f) u).apartment_number ≡ a)
      × ((updated c (edit_body form a f) u).floor ≡ f)
      × ((updated c (edit_body form a f) u).role ≡ u.role)
updated-edit_body c form a f u = ground arith

role-Saved :
    (form : EditForm) (a f : ℤ) (u v : User)
    → parse_int form.apartment_number ≡ some a
    → parse_int form.floor ≡ some f
    → HasProfile form v
    → v.apartment_number ≡ a
    → v.floor ≡ f
    → (role : Role) → role ≡ form.role
    → Saved form (record v { role = role })
role-Saved form a f u v i j p k l role m = ground (arith, p, i, j, k, l, m)

same_role-eq : (r s : Role) → same_role r s ≡ true → s ≡ r
same_role-eq user user h = refl
same_role-eq user admin h = ground arith
same_role-eq admin user h = ground arith
same_role-eq admin admin h = refl

-- What the server tests of the form: that both names are given, and its own pattern of a number.
abbrev pub is_sendable : EditForm → Bool
is_sendable form =
    not (form.first_name == "")
    && not (form.last_name == "")
    && matches_phone (codes (join form.phone_prefix form.phone_number))

update_passes-edit_body :
    (validator : ClassValidator)
    → ((dto : UpdateUserDto) (reason : String)
        → dto.rejection_reason ≡ some (some reason)
        → meets_both trim dto reason ≡ true
        → validator.reason_passes dto ≡ true)
    → (form : EditForm) (a f : ℤ)
    → (is_rejected form.status && trim form.rejection_reason == "") ≡ false
    → update_passes validator (edit_body form a f) ≡ is_sendable form
update_passes-edit_body validator lenient form a f good =
    elim (Bool-cases (is_rejected form.status)) [
      | inl y ↦ ground (
        arith,
        y,
        good,
        trim_twice form.rejection_reason,
        lenient (edit_body form a f) (trim form.rejection_reason),
      )
      | inr n ↦ ground (arith, n)
    ]

module _ (mongo : Mongo) (crypto : Crypto) (validator : ClassValidator) (acting : String)
    (failure : Thrown) (c : AdminCall) where
  -- The requests succeed, and the stored user has what the form says.
  abbrev pub IsSaved : String → EditForm → Result (Unit {0}) × Db → Type 0
  IsSaved id form (answer, db) =
      (answer ≡ ok tt) × (v : User) × (find_by_id mongo id db ≡ some v) × Saved form v

  -- What comes of the requests, by whether the server's tests accept the form.
  abbrev pub Outcome : Bool → String → EditForm → Db → Result (Unit {0}) × Db → Type 0
  Outcome true id form db r = IsSaved id form r
  Outcome false id form db r = r ≡ (err (not_valid validator), db)

  submit-patch_user :
      (id : String) (dto : UpdateUserDto) (v : User) (rs : List AdminRequest) (db : Db)
      → update_passes validator dto ≡ true
      → (admin_update_user mongo trim id dto c db).0 ≡ ok v
      → submit mongo crypto validator acting failure c (patch_user id dto ∷ rs) db
        ≡ submit mongo crypto validator acting failure c rs
            ((admin_update_user mongo trim id dto c db).1)
  unfolding submit serve
  submit-patch_user id dto v rs db passes h = rw (passes, h)

  submit-not_valid :
      (id : String) (dto : UpdateUserDto) (rs : List AdminRequest) (db : Db)
      → update_passes validator dto ≡ false
      → submit mongo crypto validator acting failure c (patch_user id dto ∷ rs) db
        ≡ (err (not_valid validator), db)
  unfolding submit serve
  submit-not_valid id dto rs db refused = rw refused

  submit-patch_role :
      (id : String) (role : Role) (v : User) (db : Db)
      → (update_user_role mongo id role db).0 ≡ ok v
      → submit mongo crypto validator acting failure c (patch_role id role ∷ []) db
        ≡ (ok tt, (update_user_role mongo id role db).1)
  unfolding submit serve
  submit-patch_role id role v db h = rw h

  role_request-IsSaved :
      (item : UserItem) (form : EditForm) (v : User) (db : Db)
      → find_by_id mongo item.id db ≡ some v
      → v.role ≡ item.role
      → ((role : Role) → role ≡ form.role → Saved form (record v { role = role }))
      → IsSaved item.id form
          (submit mongo crypto validator acting failure c (role_request item form) db)
  unfolding submit
  role_request-IsSaved item form v db found same saved =
      elim (Bool-cases (same_role form.role item.role)) [
        | inl y ↦ rw y (refl, v, found, saved v.role (same ∙ same_role-eq form.role item.role y))
        | inr n ↦
            let (answer, stored) = update_user_role-Stores mongo item.id form.role v db found in
            subst (IsSaved item.id form)
              (sym (
                ap (λ rs. submit mongo crypto validator acting failure c rs db)
                  (ap (λ b. if b then [] else patch_role item.id form.role ∷ []) n)
                ∙ submit-patch_role item.id form.role (record v { role = form.role }) db answer))
              (refl, record v { role = form.role }, stored, saved form.role refl)
      ]

  -- If the edit form is filled in for a user who exists and its own tests let it make requests, and
  -- class-validator accepts a reason that both validators of the body accept: when both names are
  -- given and the number meets the server's pattern, the server answers without an error, and the
  -- stored user has what the form says: the names, the prefix and the number in a row, the two
  -- numbers as they are read, the status, the role, and the reason without the spaces around it if
  -- the status is "rejected", else none. Otherwise the first request is refused as a bad request,
  -- and nothing that is stored changes.
  pub handle_edit_user-Saved :
      ((dto : UpdateUserDto) (reason : String)
        → dto.rejection_reason ≡ some (some reason)
        → meets_both trim dto reason ≡ true
        → validator.reason_passes dto ≡ true)
      → (updated_at : User → ℕ) (u : User) (ss : List Session) (form : EditForm)
        (rs : List AdminRequest) (db : Db)
      → find_by_id mongo u.id db ≡ some u
      → handle_edit_user (some (user_item updated_at u ss)) form ≡ asks rs
      → Outcome
          (is_sendable form)
          u.id
          form
          db
          (submit mongo crypto validator acting failure c rs db)
  handle_edit_user-Saved lenient updated_at u ss form rs db found h =
      let item = user_item updated_at u ss in
      let (a, f, i, j, good, same) = handle_edit_user-Requests item form rs h in
      let dto = edit_body form a f in
      let v = updated c dto u in
      let (p, k, l, r) = updated-edit_body c form a f u in
      let (answer, stored) =
        admin_update_user-Stores mongo u.id trim c dto u db found
          (reason_ok-edit_body form a f u good) in
      let passes = update_passes-edit_body validator lenient form a f good in
      let sent = ap (λ qs. submit mongo crypto validator acting failure c qs db) same in
      elim (Bool-cases (is_sendable form)) [
        | inl y ↦
            subst
              (λ b. Outcome b u.id form db (submit mongo crypto validator acting failure c rs db))
              (sym y)
              (subst (IsSaved u.id form)
                (sym (
                  sent
                  ∙ submit-patch_user u.id dto v (role_request item form) db (passes ∙ y) answer))
                (role_request-IsSaved item form v ((admin_update_user mongo trim u.id dto c db).1)
                  stored r (role-Saved form a f u v i j p k l)))
        | inr n ↦
            subst
              (λ b. Outcome b u.id form db (submit mongo crypto validator acting failure c rs db))
              (sym n) (sent ∙ submit-not_valid u.id dto (role_request item form) db (passes ∙ n))
      ]
