-- ===== src/Auth/Header/Tests.antt =====
-- Headers with one token, with two and with none (backend/src/auth/jwt.strategy.ts).
use parking_gate_remote.Common.{◌≡◌, refl, none, some}
use parking_gate_remote.Web.Trim.{trim, trim_end, blank}
use parking_gate_remote.Auth.Header.{extract_jwt, token_of_header}

no_token : (extract_jwt (some "bearer") ≡ none) × (extract_jwt (some "Bearer  t") ≡ none)
unfolding extract_jwt
no_token = (refl, refl)

-- The guard reads the first part behind the scheme, and the route all that follows it.
two_parts :
    (extract_jwt (some "BEARER a b") ≡ some "a")
    × (token_of_header (some "BEARER a b") ≡ some "a b")
unfolding extract_jwt token_of_header trim trim_end blank
two_parts = (refl, refl)
