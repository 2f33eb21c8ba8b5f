-- ===== src/Auth/Profile.antt =====
-- The profile of a user with the life of the token: `getProfile` and `getMe` of
-- backend/src/auth/auth.service.ts. What the decoding of a token finds under `exp` is a parameter.
use parking_gate_remote.Common.{ℕ, ◌*◌, ◌-◌, ◌/◌, String, Option, none, some, ◌==◌, if◌then◌else◌}
use parking_gate_remote.Mongo.{Mongo}
use parking_gate_remote.Users.{Db, find_by_id}
use parking_gate_remote.Users.Schema.{User}

-- The time as an ISO text is left out.
pub record TokenInfo : Type 0 where
  pub expires_at_unix : ℕ
  pub remaining_ms : ℕ
  pub remaining_seconds : ℕ

pub record MeResponse : Type 0 where
  pub user : Option User
  pub token : Option TokenInfo

-- `Math.max(expiresAtMs - nowMs, 0)` is subtraction that stops at 0.
abbrev pub token_info : ℕ → ℕ → TokenInfo
token_info now expires_at_unix = record {
  expires_at_unix = expires_at_unix;
  remaining_ms = expires_at_unix * 1000 - now;
  remaining_seconds = (expires_at_unix * 1000 - now) / 1000;
}

abbrev info_of : ℕ → Option ℕ → Option TokenInfo
info_of now none = none
info_of now (some expires_at_unix) = some (token_info now expires_at_unix)

abbrev token_of_me : (String → Option ℕ) → ℕ → Option String → Option TokenInfo
token_of_me decode now none = none
token_of_me decode now (some token) = if token == "" then none else info_of now (decode token)

module _ (mongo : Mongo) where
  pub get_profile : String → Db → Option User
  get_profile user_id db = find_by_id mongo user_id db

  pub get_me : (String → Option ℕ) → String → Option String → ℕ → Db → MeResponse
  get_me decode user_id token now db = record {
    user = get_profile user_id db;
    token = token_of_me decode now token;
  }
