-- ===== src/Admin/Sound.antt =====
-- What every status of a user goes with, under the operations of an admin
-- (backend/src/admin/admin.service.ts).
use parking_gate_remote.Common.{
  ℕ, String, ◌≡◌, refl, ap, subst, sym, ◌∙◌, Bool, true, false, not, Option, none, some, ◌&&◌, ◌||◌,
  if◌then◌else◌, arith, inl, inr, Bool-cases, Option-cases, every, every-first, every-update_first,
}
use parking_gate_remote.Mongo.{Mongo}
use parking_gate_remote.Users.{Db, has_id, find_by_id, update_user, clear_session}
use parking_gate_remote.Users.Lookup.{first_found, update_user-found}
use parking_gate_remote.Users.Schema.{Status, pending, approved, rejected, archived, User}
use parking_gate_remote.Admin.{
  AdminCall, UpdateUserDto, given_reason, is_rejected, ends_session, with_profile, with_status,
  with_update, is_reason, reason_ok, notify, notifies, finish_update, admin_update_user,
}

abbrev pub absent {ℓ} : {A : Type ℓ} → Option A → Bool
absent none = true
absent (some a) = false

-- the stamps, the reason and the device that a status goes with
abbrev pub goes_with :
    (String → String) → Status → Option ℕ → Option ℕ → Option String → Option String → Bool
goes_with trim approved approved_at rejected_at reason device =
    not (absent approved_at) && absent rejected_at && absent reason
goes_with trim rejected approved_at rejected_at reason device =
    absent approved_at && not (absent rejected_at) && is_reason trim reason && absent device
goes_with trim pending approved_at rejected_at reason device =
    (absent approved_at || absent rejected_at) && absent reason && absent device
goes_with trim archived approved_at rejected_at reason device =
    (absent approved_at || absent rejected_at) && absent reason && absent device

-- An approved user has the time of the approval and no other mark; a rejected one the time of the
-- rejection, a reason that is not blank, and no active device; others have neither a reason nor
-- an active device, and no two times.
abbrev pub is_sound : (String → String) → User → Bool
is_sound trim u =
    goes_with trim u.status u.approved_at u.rejected_at u.rejection_reason u.active_device_id

module _ (trim : String → String) where
  abbrev cleared : User → User
  cleared u = record u {
    active_device_id = none;
    active_session_id = none;
    refresh_token_hash = none;
  }

  pub goes_with-cleared :
      (s : Status) (a r : Option ℕ) (reason device : Option String)
      → goes_with trim s a r reason device ≡ true
      → goes_with trim s a r reason none ≡ true
  goes_with-cleared approved a r reason device h = h
  goes_with-cleared rejected a r reason device h = ground arith
  goes_with-cleared pending a r reason device h = ground arith
  goes_with-cleared archived a r reason device h = ground arith

  with_status_sound :
      (now : ℕ) (u : User) (previous s : Status) (reason : Option String)
      → goes_with trim previous u.approved_at u.rejected_at u.rejection_reason u.active_device_id
        ≡ true
      → (not (is_rejected s) || is_reason trim reason) ≡ true
      → is_sound trim (with_status now previous s reason u) ≡ true
  with_status_sound now u previous s reason h k = ground arith

  new_reason_sound :
      (u : User) (status : Status) (reason : Option String)
      → u.status ≡ status
      → is_sound trim u ≡ true
      → (not (is_rejected status) || is_reason trim reason) ≡ true
      → is_sound trim (record u { rejection_reason = if is_rejected status then reason else none })
        ≡ true
  new_reason_sound u status reason e h k = ground (arith, e, h, k)

  with_update_sound :
      (now : ℕ) (dto : UpdateUserDto) (existing u : User)
      → u.status ≡ existing.status
      → is_sound trim u ≡ true
      → reason_ok trim dto existing ≡ true
      → is_sound trim (with_update now dto existing u) ≡ true
  with_update_sound now dto existing u e h k = go dto.status dto.rejection_reason refl refl
    where
      go :
          (s : Option Status) (r : Option (Option String))
          → dto.status ≡ s
          → dto.rejection_reason ≡ r
          → is_sound trim (with_update now dto existing u) ≡ true
      go none none y z = ground (arith, y, z, h)
      go none (some r) y z =
          ground (arith, y, z, k, new_reason_sound (with_profile dto u) existing.status r e h)
      go (some s) r y z = ground (
        arith,
        y,
        k,
        with_status_sound now (with_profile dto u) existing.status s
            (given_reason dto.rejection_reason)
            (subst
              (λ p.
                goes_with trim p u.approved_at u.rejected_at u.rejection_reason u.active_device_id
                ≡ true)
              e h),
      )

pub with_update-id :
    (now : ℕ) (dto : UpdateUserDto) (existing u : User) → (with_update now dto existing u).id ≡ u.id
with_update-id now dto existing u = go dto.status dto.rejection_reason refl refl
  where
    go :
        (s : Option Status) (r : Option (Option String))
        → dto.status ≡ s
        → dto.rejection_reason ≡ r
        → (with_update now dto existing u).id ≡ u.id
    go none none y z = ground (arith, y, z)
    go none (some r) y z = ground (arith, y, z)
    go (some s) r y z = ground (arith, y, z)

module _ (mongo : Mongo) (trim : String → String) (id : String) where
  abbrev IsSound : Db → Type 0
  IsSound db = every (is_sound trim) db.users ≡ true

  abbrev Holds : User → Db → Type 0
  Holds u db = (find_by_id mongo id db ≡ some u) × IsSound db

  update-Holds :
      (f : User → User) (u : User) (db : Db)
      → Holds u db
      → (f u).id ≡ u.id
      → is_sound trim (f u) ≡ true
      → Holds (f u) (update_user mongo id f db)
  update-Holds f u db (found, sound) same h = (
    update_user-found mongo id u db found f same,
    ap (every (is_sound trim)) (mongo.update_one_lem User (has_id id) f db.users)
        ∙ every-update_first (has_id id) (is_sound trim) f db.users u
            (first_found mongo id u db found) sound h,
  )

  Holds-sound : (u : User) (db : Db) → Holds u db → is_sound trim u ≡ true
  Holds-sound u db (found, sound) =
      every-first (has_id id) (is_sound trim) db.users u
        (sym (mongo.find_one_lem User (has_id id) db.users) ∙ found) sound

  notify-IsSound :
      (c : AdminCall) (dto : UpdateUserDto) (existing u : User) (db : Db)
      → Holds u db
      → IsSound ((notify mongo id c dto existing u db).1)
  unfolding notify
  notify-IsSound c dto existing u db h = elim (Bool-cases (notifies c dto existing u)) [
    | inl y ↦ ground (
      arith,
      y,
      update-Holds (λ x. record x { approval_email_sent_at = some c.later }) u db h refl
          (Holds-sound u db h),
    )
    | inr n ↦ ground (arith, n, h)
  ]

  finish_update-IsSound :
      (c : AdminCall) (dto : UpdateUserDto) (existing u : User) (db : Db)
      → u.status ≡ existing.status
      → Holds u db
      → IsSound ((finish_update mongo trim id dto c existing db).1)
  unfolding finish_update
  finish_update-IsSound c dto existing u db e h = elim (Bool-cases (reason_ok trim dto existing)) [
    | inl y ↦
        let held =
          update-Holds (with_update c.now dto existing) u db h (with_update-id c.now dto existing u)
            (with_update_sound trim c.now dto existing u e (Holds-sound u db h) y) in
        ground (
          arith,
          y,
          held.0,
          notify-IsSound c dto existing (with_update c.now dto existing u)
              (update_user mongo id (with_update c.now dto existing) db) held,
        )
    | inr n ↦ ground (arith, n, h)
  ]

  -- However an admin's update of a user ends, if each user was in order before, each is after it:
  -- an approved user has the time of the approval, no time of a rejection and no reason; a
  -- rejected one the time of the rejection, no time of an approval, a reason that is not blank
  -- and no active device; a pending or archived one no reason, no active device and not both
  -- times.
  pub admin_update_user_sound :
      (dto : UpdateUserDto) (c : AdminCall) (db : Db)
      → every (is_sound trim) db.users ≡ true
      → every (is_sound trim) ((admin_update_user mongo trim id dto c db).1.users) ≡ true
  unfolding admin_update_user
  admin_update_user_sound dto c db h = elim (Option-cases (find_by_id mongo id db)) [
    | inl n ↦ ground (arith, n, h)
    | inr (u, found) ↦ elim (Bool-cases (ends_session dto.status)) [
      | inl y ↦
          let held =
            update-Holds (cleared trim) u db (found, h) refl
              (goes_with-cleared trim u.status u.approved_at u.rejected_at u.rejection_reason
                u.active_device_id (Holds-sound u db (found, h))) in
          ground (
            arith,
            y,
            found,
            finish_update-IsSound c dto u (cleared trim u) (clear_session mongo id db) refl held,
          )
      | inr n ↦ ground (arith, n, found, finish_update-IsSound c dto u u db refl (found, h))
    ]
  ]
