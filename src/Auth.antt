-- ===== src/Auth.antt =====
-- Registration, login, refresh, logout and passwords: backend/src/auth/auth.service.ts. bcrypt,
-- the signing of tokens and the readings of the clock are parameters, and so is MongoDB.
pub mod Tokens
pub mod Login
pub mod Rotation
pub mod Header
pub mod Routes
pub mod Guards
pub mod Profile
pub mod Passwords
mod Tests
use parking_gate_remote.Common.{
  ℕ, ◌+◌, ◌*◌, ◌-◌, ◌/◌, ℤ, String, Bool, true, false, not, Option, none, some, List, [], ◌∷◌, ◌==◌,
  ◌&&◌, ◌||◌, first, is_text, truthy, if◌then◌else◌,
}
use parking_gate_remote.Common.Http.{
  Thrown, http, http_reason, bad_request, unauthorized, forbidden, conflict, Result, ok, err,
}
use parking_gate_remote.Mongo.{Mongo}
use parking_gate_remote.Users.{
  Db, CreateUserParams, create, find_by_email, find_by_email_with_password, find_by_id,
  find_with_valid_reset_token, update_user, clear_password_reset_and_set_password, create_session,
  set_session, get_all_sessions, get_session_by_session_id, delete_session, clear_all_sessions,
  clear_session,
}
use parking_gate_remote.Users.Schema.{
  User, Session, Status, pending, approved, rejected, archived, Role, user, admin,
}
use Tokens.{Payload, Crypto}

-- What one call meets: readings of the clock, and what the random generators give.
pub record Call : Type 0 where
  pub now : ℕ
  pub later : ℕ
  pub uuid : String  -- `randomUUID()`
  pub random_hex : String  -- `randomBytes(32).toString('hex')`
  pub salt : ℕ
  pub object_id : String  -- the `_id` that a new document gets
  pub fault : Option Thrown  -- the server's failure on the creation of a document

pub record RegisterDto : Type 0 where
  pub email : String
  pub password : String
  pub first_name : String
  pub last_name : String
  pub phone : String
  pub apartment_number : ℤ
  pub floor : ℤ

pub record LoginDto : Type 0 where
  pub email : String
  pub password : String
  pub device_id : String

pub record LoginResponse : Type 0 where
  pub user : User
  pub access_token : String
  pub refresh_token : String

pub record RefreshResponse : Type 0 where
  pub access_token : String
  pub refresh_token : String

abbrev pub is_admin : Role → Bool
is_admin user = false
is_admin admin = true

abbrev pub not_found : Thrown
not_found =
    http unauthorized
      "\u{5de}\u{5e9}\u{5ea}\u{5de}\u{5e9} \u{5dc}\u{5d0} \u{5e0}\u{5de}\u{5e6}\u{5d0}"

abbrev pub wrong_credentials : Thrown
wrong_credentials =
    http unauthorized
      "\u{5d0}\u{5d9}\u{5de}\u{5d9}\u{5d9}\u{5dc} \u{5d0}\u{5d5} \u{5e1}\u{5d9}\u{5e1}\u{5de}\u{5d4} \u{5e9}\u{5d2}\u{5d5}\u{5d9}\u{5d9}\u{5dd}"

-- `user.role !== 'admin' && user.activeDeviceId && user.activeDeviceId !== deviceId`
abbrev pub on_other_device : User → String → Bool
on_other_device u device_id =
    not (is_admin u.role) && truthy u.active_device_id && not (is_text u.active_device_id device_id)

-- the tests of `login` on the user that was found, in order
pub login_status : User → Result User
login_status u = elim u.status [
  | pending ↦ err (
      http forbidden
        "\u{5d4}\u{5de}\u{5e9}\u{5ea}\u{5de}\u{5e9} \u{5de}\u{5de}\u{5ea}\u{5d9}\u{5df} \u{5dc}\u{5d0}\u{5d9}\u{5e9}\u{5d5}\u{5e8} \u{5d0}\u{5d3}\u{5de}\u{5d9}\u{5df}")
  | rejected ↦ err (
      http_reason forbidden
        "\u{5d4}\u{5d1}\u{5e7}\u{5e9}\u{5d4} \u{5dc}\u{5d0}\u{5d9}\u{5e9}\u{5d5}\u{5e8} \u{5d4}\u{5d7}\u{5e9}\u{5d1}\u{5d5}\u{5df} \u{5e0}\u{5d3}\u{5d7}\u{5ea}\u{5d4}"
        u.rejection_reason)
  | archived ↦
      err (http forbidden "\u{5d4}\u{5de}\u{5e9}\u{5ea}\u{5de}\u{5e9} \u{5e0}\u{5d7}\u{5e1}\u{5dd}")
  | approved ↦ ok u
]

pub login_device : String → User → Result User
login_device device_id u =
    if on_other_device u device_id
    then err (
        http conflict
          "\u{5d4}\u{5de}\u{5e9}\u{5ea}\u{5de}\u{5e9} \u{5de}\u{5d7}\u{5d5}\u{5d1}\u{5e8} \u{5db}\u{5d1}\u{5e8} \u{5de}\u{5de}\u{5db}\u{5e9}\u{5d9}\u{5e8} \u{5d0}\u{5d7}\u{5e8}")
    else ok u

infixl 5 ◌>>=◌
abbrev ◌>>=◌ {ℓ κ} : {A : Type ℓ} {B : Type κ} → Result A → (A → Result B) → Result B
ok a >>= f = f a
err e >>= f = err e

-- What a call that fails leaves is the database as it was.
abbrev pub on_ok {ℓ κ} :
    {A : Type ℓ} {B : Type κ} → Db → Result A → (A → Result B × Db) → Result B × Db
on_ok db (ok a) f = f a
on_ok db (err e) f = (err e, db)

abbrev pub or_throw {ℓ} : {A : Type ℓ} → Option A → Thrown → Result A
or_throw none e = err e
or_throw (some a) e = ok a

abbrev pub require : Bool → Thrown → Result (Unit {0})
require true e = ok tt
require false e = err e

abbrev pub is_empty {ℓ} : {A : Type ℓ} → List A → Bool
is_empty [] = true
is_empty (a ∷ rest) = false

module _ (mongo : Mongo) (crypto : Crypto) where
  open crypto use {hash, compare, sign_access, sign_refresh, verify_refresh}

  pub register : RegisterDto → Call → Db → Result User × Db
  register dto c db = elim (find_by_email mongo dto.email db) [
    | some existing ↦ (
      err (
          http bad_request
            "\u{5db}\u{5ea}\u{5d5}\u{5d1}\u{5ea} \u{5d0}\u{5d9}\u{5de}\u{5d9}\u{5d9}\u{5dc} \u{5d6}\u{5d5} \u{5db}\u{5d1}\u{5e8} \u{5e8}\u{5e9}\u{5d5}\u{5de}\u{5d4} \u{5d1}\u{5de}\u{5e2}\u{5e8}\u{5db}\u{5ea}"),
      db,
    )
    | none ↦
        create mongo c.object_id c.now c.fault
          (record {
            email = dto.email;
            password_hash = hash c.salt dto.password;
            first_name = dto.first_name;
            last_name = dto.last_name;
            phone = dto.phone;
            apartment_number = dto.apartment_number;
            floor = dto.floor;
            status = some pending;
            rejection_reason = none;
          })
          db
  ]

  -- `login`, up to the user that may enter
  pub admit : LoginDto → Db → Result User
  admit dto db = do
    u ← or_throw (find_by_email_with_password mongo dto.email db) wrong_credentials
    _ ← require (compare dto.password u.password_hash) wrong_credentials
    _ ← login_status u
    login_device dto.device_id u

  abbrev pub payload_of : User → String → String → Payload
  payload_of u device_id sid = record {
    sub = u.id;
    role = u.role;
    device_id = device_id;
    sid = sid;
  }

  abbrev login_refresh_token : LoginDto → Call → User → String
  login_refresh_token dto c u = sign_refresh c.now (payload_of u dto.device_id c.uuid)

  -- `login`, from the user that may enter on
  pub enter : LoginDto → Call → Db → User → Result LoginResponse × Db
  enter dto c db u =
      let token = login_refresh_token dto c u in
      let token_hash = hash c.salt token in
      let cleared = if is_admin u.role then db else clear_all_sessions mongo u.id db in
      let with_session = create_session mongo u.id dto.device_id c.uuid token_hash c.now cleared in
      (
        ok (record {
          user = u;
          access_token = sign_access c.later (payload_of u dto.device_id c.uuid);
          refresh_token = token;
        }),
        set_session mongo u.id dto.device_id c.uuid token_hash c.later with_session,
      )

  pub login : LoginDto → Call → Db → Result LoginResponse × Db
  login dto c db = on_ok db (admit dto db) (enter dto c db)

  -- the tests of `refresh`, in order; the payload of the token is the result
  pub admit_refresh : String → Call → Db → Result Payload
  admit_refresh token c db = do
    p ←
        or_throw (verify_refresh c.now token)
          (http unauthorized "Refresh token \u{5dc}\u{5d0} \u{5ea}\u{5e7}\u{5d9}\u{5df}")
    s ←
        or_throw (get_session_by_session_id mongo p.sid db)
          (http unauthorized "Session \u{5dc}\u{5d0} \u{5e0}\u{5de}\u{5e6}\u{5d0}")
    _ ← require (s.user_id == p.sub) (
        http unauthorized
          "Session \u{5dc}\u{5d0} \u{5ea}\u{5d5}\u{5d0}\u{5dd} \u{5dc}\u{5de}\u{5e9}\u{5ea}\u{5de}\u{5e9}")
    _ ←
        require (s.device_id == p.device_id)
          (http unauthorized "Device \u{5dc}\u{5d0} \u{5ea}\u{5d5}\u{5d0}\u{5dd}")
    _ ←
        require (compare token s.refresh_token_hash)
          (http unauthorized "Refresh token \u{5dc}\u{5d0} \u{5ea}\u{5e7}\u{5d9}\u{5df}")
    ok p

  -- `refresh`, from the accepted token on; the last test comes after the writes
  pub rotate : Call → Db → Payload → Result RefreshResponse × Db
  rotate c db p =
      let token =
        sign_refresh c.now
          (record { sub = p.sub; role = p.role; device_id = p.device_id; sid = c.uuid }) in
      let token_hash = hash c.salt token in
      let db' =
        set_session mongo p.sub p.device_id c.uuid token_hash c.later
          (create_session mongo p.sub p.device_id c.uuid token_hash c.now db) in
      elim (find_by_id mongo p.sub db') [
        | none ↦ (err not_found, db')
        | some u ↦ (
          ok (record {
            access_token = sign_access c.later (payload_of u p.device_id c.uuid);
            refresh_token = token;
          }),
          db',
        )
      ]

  pub refresh : String → Call → Db → Result RefreshResponse × Db
  refresh token c db = on_ok db (admit_refresh token c db) (rotate c db)

  -- the tests of `logout`
  pub admit_logout : String → String → Db → Result User
  admit_logout user_id device_id db = do
    u ← or_throw (find_by_id mongo user_id db) not_found
    _ ← require (is_admin u.role || truthy u.active_device_id) (
        http conflict
          "\u{5d4}\u{5de}\u{5e9}\u{5ea}\u{5de}\u{5e9} \u{5dc}\u{5d0} \u{5de}\u{5d7}\u{5d5}\u{5d1}\u{5e8}")
    _ ← require (is_admin u.role || is_text u.active_device_id device_id) (
        http conflict
          "\u{5d4}\u{5de}\u{5e9}\u{5ea}\u{5de}\u{5e9} \u{5de}\u{5d7}\u{5d5}\u{5d1}\u{5e8} \u{5de}\u{5de}\u{5db}\u{5e9}\u{5d9}\u{5e8} \u{5d0}\u{5d7}\u{5e8}")
    ok u

  pub leave : String → String → Db → User → Result (Unit {0}) × Db
  leave user_id device_id db u =
      let db' = delete_session mongo user_id device_id db in
      (
        ok tt,
        if is_empty (get_all_sessions mongo user_id db') || not (is_admin u.role)
            then clear_session mongo user_id db'
            else db',
      )

  pub logout : String → String → Db → Result (Unit {0}) × Db
  logout user_id device_id db =
      on_ok db (admit_logout user_id device_id db) (leave user_id device_id db)
