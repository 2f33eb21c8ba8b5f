-- ===== src/Admin.antt =====
-- What an admin does to users: backend/src/admin/admin.service.ts with dto/update-user.dto.ts. An
-- answer is the stored user, whose fields the source copies one by one. Whether the approval
-- e-mail goes out is a parameter of a call, and so is the removal of spaces around a text.
pub mod Validators
pub mod Sound
pub mod Sessions
pub mod Devices
pub mod Listing
pub mod Update
pub mod Steps
pub mod Terminal
mod Tests
use parking_gate_remote.Common.{
  ℕ, String, ℤ, Bool, true, false, not, Option, none, some, List, [], ◌∷◌, ◌==◌, ◌&&◌, ◌||◌,
  if◌then◌else◌,
}
use parking_gate_remote.Common.Http.{Thrown, http, bad_request, not_found, Result, ok, err}
use parking_gate_remote.Mongo.{Mongo}
use parking_gate_remote.Users.{
  Db, find_by_id, update_user, delete_by_id, clear_active_device, delete_session, get_all_sessions,
  clear_all_sessions, clear_session,
}
use parking_gate_remote.Users.Schema.{
  Status, pending, approved, rejected, archived, Role, User, Session,
}
use parking_gate_remote.Auth.{or_throw, on_ok, require, is_empty}
use parking_gate_remote.Auth.Tokens.{Crypto}

-- What a call meets: readings of the clock, the salt of a hash, and whether the e-mail goes out.
pub record AdminCall : Type 0 where
  pub now : ℕ
  pub later : ℕ
  pub salt : ℕ
  pub email_sent : Bool

-- A field that is missing is `none`; a reason that is `null` is `some none`.
pub record UpdateUserDto : Type 0 where
  pub first_name : Option String
  pub last_name : Option String
  pub phone : Option String
  pub apartment_number : Option ℤ
  pub floor : Option ℤ
  pub status : Option Status
  pub rejection_reason : Option (Option String)

pub record ResetPasswordDto : Type 0 where
  pub new_password : String
  pub confirm_password : String

abbrev pub missing_user : Thrown
missing_user =
    http not_found "\u{5de}\u{5e9}\u{5ea}\u{5de}\u{5e9} \u{5dc}\u{5d0} \u{5e0}\u{5de}\u{5e6}\u{5d0}"

abbrev pub reason_required : Thrown
reason_required =
    http bad_request
      "\u{5e1}\u{5d9}\u{5d1}\u{5ea} \u{5d3}\u{5d7}\u{5d9}\u{5d9}\u{5d4} \u{5e0}\u{5d3}\u{5e8}\u{5e9}\u{5ea} \u{5db}\u{5d0}\u{5e9}\u{5e8} \u{5d4}\u{5e1}\u{5d8}\u{5d8}\u{5d5}\u{5e1} \u{5d4}\u{5d5}\u{5d0} \"\u{5e0}\u{5d3}\u{5d7}\u{5d4}\""

abbrev mismatch : Thrown
mismatch =
    http bad_request
      "\u{5e1}\u{5d9}\u{5e1}\u{5de}\u{5d4} \u{5d5}\u{5d0}\u{5d9}\u{5e9}\u{5d5}\u{5e8} \u{5e1}\u{5d9}\u{5e1}\u{5de}\u{5d4} \u{5d0}\u{5d9}\u{5e0}\u{5dd} \u{5ea}\u{5d5}\u{5d0}\u{5de}\u{5d9}\u{5dd}"

abbrev pub given {ℓ} : {A : Type ℓ} → Option A → A → A
given none a = a
given (some b) a = b

abbrev pub is_approved : Status → Bool
is_approved approved = true
is_approved _ = false

abbrev pub is_rejected : Status → Bool
is_rejected rejected = true
is_rejected _ = false

abbrev pub sets_approved : Option Status → Bool
sets_approved none = false
sets_approved (some s) = is_approved s

-- a status that ends the session
abbrev pub ends_session : Option Status → Bool
ends_session none = false
ends_session (some s) = not (is_approved s)

abbrev pub given_reason : Option (Option String) → Option String
given_reason none = none
given_reason (some r) = r

-- `updateData`, without the status and what goes with it
abbrev pub with_profile : UpdateUserDto → User → User
with_profile dto u = record u {
  first_name = given dto.first_name u.first_name;
  last_name = given dto.last_name u.last_name;
  phone = given dto.phone u.phone;
  apartment_number = given dto.apartment_number u.apartment_number;
  floor = given dto.floor u.floor;
}

-- the time stamps of a status change
abbrev pub stamp : ℕ → Status → Status → User → User
stamp now previous approved u =
    if is_approved previous then u else record u { approved_at = some now; rejected_at = none }
stamp now previous rejected u =
    if is_rejected previous then u else record u { rejected_at = some now; approved_at = none }
stamp now previous pending u = u
stamp now previous archived u = u

-- the part of `updateData` that goes with a status
abbrev pub with_status : ℕ → Status → Status → Option String → User → User
with_status now previous status reason u =
    let stamped = stamp now previous status u in
    record stamped {
      status = status;
      active_device_id = if is_approved status then stamped.active_device_id else none;
      rejection_reason = if is_rejected status then reason else none;
    }

-- the whole of `updateData`, by the user as first found
abbrev pub with_update : ℕ → UpdateUserDto → User → User → User
with_update now dto existing u = elim dto.status [
  | some s ↦
      with_status now existing.status s (given_reason dto.rejection_reason) (with_profile dto u)
  | none ↦ elim dto.rejection_reason [
    | none ↦ with_profile dto u
    | some r ↦ record (with_profile dto u) {
      rejection_reason = if is_rejected existing.status then r else none;
    }
  ]
]

module _ (trim : String → String) where
  -- `reason && reason.trim().length !== 0`
  abbrev pub is_reason : Option String → Bool
  is_reason none = false
  is_reason (some r) = not (r == "") && not (trim r == "")

  -- whether the tests on the reason pass
  abbrev pub reason_ok : UpdateUserDto → User → Bool
  reason_ok dto existing = elim dto.status [
    | some s ↦ not (is_rejected s) || is_reason (given_reason dto.rejection_reason)
    | none ↦ elim dto.rejection_reason [
      | none ↦ true
      | some r ↦ not (is_rejected existing.status) || is_reason r
    ]
  ]

abbrev is_missing : Option ℕ → Bool
is_missing none = true
is_missing (some t) = false

-- whether `updateUser` sends the e-mail, and it goes out
abbrev pub notifies : AdminCall → UpdateUserDto → User → User → Bool
notifies c dto existing updated =
    sets_approved dto.status
    && not (is_approved existing.status)
    && is_missing updated.approval_email_sent_at
    && c.email_sent

module _ (mongo : Mongo) where
  -- the e-mail at the end of `updateUser`: the time stamp that it leaves, and the answer
  pub notify : String → AdminCall → UpdateUserDto → User → User → Db → Result User × Db
  notify id c dto existing updated db =
      let db' =
        if notifies c dto existing updated
        then update_user mongo id (λ u. record u { approval_email_sent_at = some c.later }) db
        else db in
      (
        ok (
            if notifies c dto existing updated
            then given (find_by_id mongo id db') updated
            else updated),
        db',
      )

  -- `updateUser`, from the test of the reason on
  pub finish_update :
      (String → String) → String → UpdateUserDto → AdminCall → User → Db → Result User × Db
  finish_update trim id dto c existing db =
      on_ok db (require (reason_ok trim dto existing) reason_required) λ _.
        let db' = update_user mongo id (with_update c.now dto existing) db in
        on_ok db' (or_throw (find_by_id mongo id db') missing_user)
          λ updated. notify id c dto existing updated db'

  -- `updateUser`; the session is ended before the reason is tested.
  pub admin_update_user :
      (String → String) → String → UpdateUserDto → AdminCall → Db → Result User × Db
  admin_update_user trim id dto c db =
      on_ok db (or_throw (find_by_id mongo id db) missing_user) λ existing.
        let db' = if ends_session dto.status then clear_session mongo id db else db in
        finish_update trim id dto c existing db'

  pub update_user_role : String → Role → Db → Result User × Db
  update_user_role id role db = on_ok db (or_throw (find_by_id mongo id db) missing_user) λ user.
      let db' = update_user mongo id (λ u. record u { role = role }) db in
      (or_throw (find_by_id mongo id db') missing_user, db')

  pub delete_user : String → String → Db → Result User × Db
  delete_user id acting_admin_id db =
      if id == acting_admin_id
      then (
        err (
            http bad_request
              "\u{5dc}\u{5d0} \u{5e0}\u{5d9}\u{5ea}\u{5df} \u{5dc}\u{5de}\u{5d7}\u{5d5}\u{5e7} \u{5d0}\u{5ea} \u{5d4}\u{5d7}\u{5e9}\u{5d1}\u{5d5}\u{5df} \u{5e9}\u{5dc} \u{5e2}\u{5e6}\u{5de}\u{5da}"),
        db,
      )
      else on_ok db (or_throw (find_by_id mongo id db) missing_user) λ user.
        let cleared = clear_all_sessions mongo id db in
        let db' = delete_by_id mongo id cleared in
        (or_throw (find_by_id mongo id cleared) missing_user, db')

  -- `deviceId` is the empty text if it is missing.
  pub reset_user_device : String → String → Db → Result User × Db
  reset_user_device id device_id db =
      on_ok db (or_throw (find_by_id mongo id db) missing_user) λ user.
        let db1 =
          if device_id == ""
          then clear_active_device mongo id
              (clear_session mongo id (clear_all_sessions mongo id db))
          else delete_session mongo id device_id db in
        let db2 =
          if is_empty (get_all_sessions mongo id db1)
          then clear_active_device mongo id (clear_session mongo id db1)
          else db1 in
        (or_throw (find_by_id mongo id db2) missing_user, db2)

  -- `sendApprovalEmail`; that the e-mail is refused is an error that the caller gets.
  pub send_approval_email : String → AdminCall → Thrown → Db → Result (Unit {0}) × Db
  send_approval_email id c failure db =
      on_ok db (or_throw (find_by_id mongo id db) missing_user) λ user.
        on_ok db
          (require (is_approved user.status) (
            http bad_request
              "\u{5dc}\u{5d0} \u{5e0}\u{5d9}\u{5ea}\u{5df} \u{5dc}\u{5e9}\u{5dc}\u{5d5}\u{5d7} \u{5de}\u{5d9}\u{5d9}\u{5dc} \u{5d0}\u{5d9}\u{5e9}\u{5d5}\u{5e8} \u{5dc}\u{5de}\u{5e9}\u{5ea}\u{5de}\u{5e9} \u{5e9}\u{5d0}\u{5d9}\u{5e0}\u{5d5} \u{5de}\u{5d0}\u{5d5}\u{5e9}\u{5e8}"))
          λ _. on_ok db (require c.email_sent failure) λ _. (
            ok tt,
            update_user mongo id (λ u. record u { approval_email_sent_at = some c.later }) db,
          )

module _ (mongo : Mongo) (crypto : Crypto) where
  -- `resetPassword`
  pub admin_reset_password : String → ResetPasswordDto → AdminCall → Db → Result User × Db
  admin_reset_password id dto c db =
      on_ok db (require (dto.new_password == dto.confirm_password) mismatch) λ _.
        on_ok db (or_throw (find_by_id mongo id db) missing_user) λ user.
          let db' =
            update_user mongo id
              (λ u. record u { password_hash = crypto.hash c.salt dto.new_password }) db in
          on_ok db' (or_throw (find_by_id mongo id db') missing_user)
            λ updated. (ok updated, clear_session mongo id (clear_all_sessions mongo id db'))
