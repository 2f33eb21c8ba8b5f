-- ===== src/Users.antt =====
-- Users and their sessions: backend/src/users/users.service.ts with the documents of
-- users/schemas/user.schema.ts and users/schemas/session.schema.ts, over the interface to MongoDB.
-- A field that is `null` or missing is `none`; a time is a number of milliseconds.
pub mod Schema
pub mod Sessions
pub mod Lookup
use parking_gate_remote.Common.{
  ℕ, ℤ, String, Bool, true, false, Option, none, some, List, [], ◌∷◌, ◌==◌, ◌&&◌, ltb,
  if◌then◌else◌,
}
use parking_gate_remote.Common.Http.{Thrown, error, Result, ok, err}
use parking_gate_remote.Mongo.{Mongo, created, duplicate_key, failed}
use Schema.{User, Session, Status, pending, Role, user}

-- The two collections.
pub record Db : Type 0 where
  pub users : List User
  pub sessions : List Session

-- The parameters of `create`; what the schema and the server fill in comes behind.
pub record CreateUserParams : Type 0 where
  pub email : String
  pub password_hash : String
  pub first_name : String
  pub last_name : String
  pub phone : String
  pub apartment_number : ℤ
  pub floor : ℤ
  pub status : Option Status
  pub rejection_reason : Option String

abbrev pub status_or_pending : Option Status → Status
status_or_pending none = pending
status_or_pending (some s) = s

abbrev pub new_user : String → ℕ → CreateUserParams → User
new_user id now p = record {
  id = id;
  email = p.email;
  password_hash = p.password_hash;
  role = user;
  first_name = p.first_name;
  last_name = p.last_name;
  phone = p.phone;
  apartment_number = p.apartment_number;
  floor = p.floor;
  status = status_or_pending p.status;
  rejection_reason = p.rejection_reason;
  approved_at = none;
  rejected_at = none;
  approval_email_sent_at = none;
  active_device_id = none;
  active_session_id = none;
  refresh_token_hash = none;
  reset_password_token_hash = none;
  reset_password_expires_at = none;
  created_at = now;
}

abbrev pub has_id : String → User → Bool
has_id id u = u.id == id

abbrev pub has_email : String → User → Bool
has_email email u = u.email == email

abbrev pub of_user : String → Session → Bool
of_user user_id s = s.user_id == user_id

abbrev pub of_device : String → String → Session → Bool
of_device user_id device_id s = s.user_id == user_id && s.device_id == device_id

abbrev pub has_session_id : String → Session → Bool
has_session_id sid s = s.session_id == sid

abbrev after_now : ℕ → Option ℕ → Bool
after_now now none = false
after_now now (some t) = ltb now t

abbrev present {ℓ} : {A : Type ℓ} → Option A → Bool
present none = false
present (some a) = true

abbrev pub has_valid_reset_token : ℕ → User → Bool
has_valid_reset_token now u =
    after_now now u.reset_password_expires_at && present u.reset_password_token_hash

module _ (mongo : Mongo) where
  pub create : String → ℕ → Option Thrown → CreateUserParams → Db → Result User × Db
  create id now fault p db =
      elim (mongo.create_unique User (λ u. u.email) fault (new_user id now p) db.users) [
        | created us ↦ (ok (new_user id now p), record db { users = us })
        | duplicate_key ↦ (err (error "MongoServerError" "E11000 duplicate key error"), db)
        | failed e ↦ (err e, db)
      ]

  abbrev pub find_by_email : String → Db → Option User
  find_by_email email db = mongo.find_one User (has_email email) db.users

  abbrev pub find_by_email_with_password : String → Db → Option User
  find_by_email_with_password email db = mongo.find_one User (has_email email) db.users

  abbrev pub find_by_id : String → Db → Option User
  find_by_id id db = mongo.find_one User (has_id id) db.users

  abbrev pub find_with_valid_reset_token : ℕ → Db → List User
  find_with_valid_reset_token now db = mongo.find User (has_valid_reset_token now) db.users

  -- `findByIdAndUpdate(id, f)`; with `{ new: true }` it answers with `find_by_id` after it.
  abbrev pub update_user : String → (User → User) → Db → Db
  update_user id f db = record db { users = mongo.update_one User (has_id id) f db.users }

  abbrev pub clear_password_reset_and_set_password : String → String → Db → Db
  clear_password_reset_and_set_password id hash db =
      update_user id
        (λ u. record u {
          password_hash = hash;
          reset_password_token_hash = none;
          reset_password_expires_at = none;
        })
        db

  abbrev pub delete_by_id : String → Db → Db
  delete_by_id id db = record db { users = mongo.delete_one User (has_id id) db.users }

  abbrev pub set_active_device : String → String → Db → Db
  set_active_device id device db =
      update_user id (λ u. record u { active_device_id = some device }) db

  abbrev pub clear_active_device : String → Db → Db
  clear_active_device id db = update_user id (λ u. record u { active_device_id = none }) db

  -- One session for each user and device.
  abbrev pub create_session : String → String → String → String → ℕ → Db → Db
  create_session user_id device_id sid hash now db = record db {
    sessions =
        mongo.upsert Session (of_device user_id device_id)
          (λ s. record {
            user_id = user_id;
            device_id = device_id;
            session_id = sid;
            refresh_token_hash = hash;
            last_active_at = now;
          })
          (record {
            user_id = user_id;
            device_id = device_id;
            session_id = sid;
            refresh_token_hash = hash;
            last_active_at = now;
          })
          db.sessions;
  }

  abbrev pub set_session : String → String → String → String → ℕ → Db → Db
  set_session user_id device_id sid hash now db = create_session user_id device_id sid hash now (
      update_user user_id
        (λ u. record u {
          active_device_id = some device_id;
          active_session_id = some sid;
          refresh_token_hash = some hash;
        })
        db)

  abbrev pub get_all_sessions : String → Db → List Session
  get_all_sessions user_id db = mongo.find Session (of_user user_id) db.sessions

  abbrev pub get_session_by_session_id : String → Db → Option Session
  get_session_by_session_id sid db = mongo.find_one Session (has_session_id sid) db.sessions

  abbrev pub delete_session : String → String → Db → Db
  delete_session user_id device_id db = record db {
    sessions =
        mongo.delete_many Session
          (if device_id == "" then of_user user_id else of_device user_id device_id) db.sessions;
  }

  abbrev pub clear_all_sessions : String → Db → Db
  clear_all_sessions user_id db = record db {
    sessions = mongo.delete_many Session (of_user user_id) db.sessions;
  }

  abbrev pub update_session_last_active : String → ℕ → Db → Db
  update_session_last_active sid now db = record db {
    sessions =
        mongo.update_one Session (has_session_id sid) (λ s. record s { last_active_at = now })
          db.sessions;
  }

  abbrev pub clear_session : String → Db → Db
  clear_session user_id db =
      update_user user_id
        (λ u. record u {
          active_device_id = none;
          active_session_id = none;
          refresh_token_hash = none;
        })
        db
