-- ===== src/Auth/Passwords.antt =====
-- Forgotten passwords and the profile: `requestPasswordReset`, `resetPassword` and `updateMe` of
-- backend/src/auth/auth.service.ts.
pub mod Reset
pub mod Request
mod Tests
use parking_gate_remote.Common.{
  ℕ, ◌+◌, ◌*◌, ℤ, String, Bool, true, false, Option, none, some, List, [], ◌∷◌, ◌==◌, ◌&&◌, first,
  truthy,
}
use parking_gate_remote.Common.Http.{Thrown, http, bad_request, Result, ok, err}
use parking_gate_remote.Mongo.{Mongo}
use parking_gate_remote.Users.{
  Db, find_by_email, find_by_id, update_user, find_with_valid_reset_token,
  clear_password_reset_and_set_password,
}
use parking_gate_remote.Users.Schema.{User}
use parking_gate_remote.Auth.{Call, not_found, on_ok, or_throw}
use parking_gate_remote.Auth.Tokens.{Crypto}
use Prim.Native.String.{◌++◌}

-- What `sendPasswordResetEmail` is called with; a failure of it is caught.
pub record ResetEmail : Type 0 where
  pub email : String
  pub link : String
  pub expiry_minutes : ℕ

pub record UpdateMeDto : Type 0 where
  pub first_name : Option String
  pub last_name : Option String
  pub phone : Option String
  pub apartment_number : Option ℤ
  pub floor : Option ℤ

-- `a ?? b`
abbrev pub or_default {ℓ} : {A : Type ℓ} → Option A → A → A
or_default none b = b
or_default (some a) b = a

abbrev pub bad_link : Thrown
bad_link =
    http bad_request
      "\u{5d4}\u{5e7}\u{5d9}\u{5e9}\u{5d5}\u{5e8} \u{5dc}\u{5d0} \u{5ea}\u{5e7}\u{5e3} \u{5d0}\u{5d5} \u{5e9}\u{5e4}\u{5d2} \u{5ea}\u{5d5}\u{5e7}\u{5e4}\u{5d5}. \u{5e0}\u{5e1}\u{5d4} \u{5dc}\u{5d1}\u{5e7}\u{5e9} \u{5e7}\u{5d9}\u{5e9}\u{5d5}\u{5e8} \u{5d7}\u{5d3}\u{5e9}."

abbrev pub with_me : UpdateMeDto → User → User
with_me dto u = record u {
  first_name = or_default dto.first_name u.first_name;
  last_name = or_default dto.last_name u.last_name;
  phone = or_default dto.phone u.phone;
  apartment_number = or_default dto.apartment_number u.apartment_number;
  floor = or_default dto.floor u.floor;
}

module _ (mongo : Mongo) (crypto : Crypto) where
  -- the user with a token that can be used until `expiry_minutes` have passed
  abbrev pub with_reset_token : ℕ → Call → User → User
  with_reset_token expiry_minutes c u = record u {
    reset_password_token_hash = some (crypto.hash c.salt c.random_hex);
    reset_password_expires_at = some (c.now + expiry_minutes * 60 * 1000);
  }

  -- `requestPasswordReset`, under `PASSWORD_RESET_EXPIRY_MINUTES` and `HOMEPAGE_URL`
  pub request_password_reset :
      Option ℕ → Option String → String → Call → Db → Option ResetEmail × Db
  request_password_reset minutes homepage_url email c db = elim (find_by_email mongo email db) [
    | none ↦ (none, db)
    | some u ↦ (
      some (record {
        email = email;
        link =
            or_default homepage_url "https://mitzpe6-8.com"
            ++ "/reset-password?token="
            ++ c.random_hex;
        expiry_minutes = or_default minutes 60;
      }),
      update_user mongo u.id (with_reset_token (or_default minutes 60) c) db,
    )
  ]

  -- the test of the loop over the candidates
  abbrev pub accepts_hash : String → Option String → Bool
  accepts_hash token none = false
  accepts_hash token (some h) = truthy (some h) && crypto.compare token h

  abbrev pub accepts : String → User → Bool
  accepts token u = accepts_hash token u.reset_password_token_hash

  -- the loop over the candidates
  pub matched_user : String → ℕ → Db → Option User
  matched_user token now db = first (accepts token) (find_with_valid_reset_token mongo now db)

  pub reset_password : String → String → Call → Db → Result (Unit {0}) × Db
  reset_password token new_password c db = elim (matched_user token c.now db) [
    | none ↦ (err bad_link, db)
    | some u ↦ (
      ok tt,
      clear_password_reset_and_set_password mongo u.id (crypto.hash c.salt new_password) db,
    )
  ]

  pub update_me : String → UpdateMeDto → Db → Result User × Db
  update_me id dto db = on_ok db (or_throw (find_by_id mongo id db) not_found) λ u.
      let db' = update_user mongo id (with_me dto) db in
      (or_throw (find_by_id mongo id db') not_found, db')
