-- ===== src/Auth/Tokens.antt =====
-- The payload of a token (backend/src/auth/auth.types.ts), and what the services use of bcrypt and
-- of the signing of tokens (`@nestjs/jwt`), with the laws that their documentation gives.
pub mod Plain
use parking_gate_remote.Common.{ℕ, ◌+◌, ◌≤◌, String, ◌≡◌, Bool, true, Option, some}
use parking_gate_remote.Users.Schema.{Role}

pub record Payload : Type 0 where
  pub sub : String
  pub role : Role
  pub device_id : String
  pub sid : String

pub record Crypto : Type 0 where
  -- `bcrypt.hash` under a salt, and `bcrypt.compare`
  pub hash : ℕ → String → String
  pub compare : String → String → Bool
  -- `sign` with the access secret and with the refresh secret, at a time
  pub sign_access : ℕ → Payload → String
  pub sign_refresh : ℕ → Payload → String
  -- `verify` with the refresh secret at a time; `none` if it throws
  pub verify_refresh : ℕ → String → Option Payload
  -- The life of a refresh token in milliseconds.
  pub refresh_life : ℕ
  pub compare-hash : (salt : ℕ) (s : String) → compare s (hash salt s) ≡ true
  pub verify-sign :
      (signed now : ℕ) (p : Payload)
      → signed ≤ now
      → now ≤ signed + refresh_life
      → verify_refresh now (sign_refresh signed p) ≡ some p
  -- Whenever a token is accepted, it is for the payload that it carries.
  pub verify-same :
      (t : String) (now later : ℕ) (p q : Payload)
      → verify_refresh now t ≡ some p
      → verify_refresh later t ≡ some q
      → q ≡ p
