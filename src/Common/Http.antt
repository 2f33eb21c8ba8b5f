-- ===== src/Common/Http.antt =====
-- What the code throws: NestJS exceptions by class, other `Error` objects, other values.
use Prim.Native.String.{String}
use mathlib.Core.Path.{◌≡◌, refl}
use mathlib.Core.Logic.{◌⊎◌, inl, inr}
use mathlib.Core.Bool.{Bool, true, false}
use mathlib.Core.Option.{Option}
use text.Mathlib.Text.{◌==◌}

pub data Kind : Type 0 where
  bad_request unauthorized forbidden not_found conflict bad_gateway gateway_timeout : Kind
  too_many_requests : Kind

pub data Thrown : Type 0 where
  http : Kind → String → Thrown  -- the class of the exception and its message
  -- an exception whose response is an object with a message and a rejection reason
  http_reason : Kind → String → Option String → Thrown
  error : String → String → Thrown  -- another `Error`: its name and its message
  value : Thrown  -- anything else

pub data Result {ℓ} (A : Type ℓ) : Type ℓ where
  ok : A → Result A
  err : Thrown → Result A

-- `error.name`, by the class of an exception.
abbrev pub class_name : Kind → String
class_name bad_request = "BadRequestException"
class_name unauthorized = "UnauthorizedException"
class_name forbidden = "ForbiddenException"
class_name not_found = "NotFoundException"
class_name conflict = "ConflictException"
class_name bad_gateway = "BadGatewayException"
class_name gateway_timeout = "GatewayTimeoutException"
class_name too_many_requests = "ThrottlerException"

-- `error instanceof Error && error.name === n`
abbrev pub is_named : String → Thrown → Bool
is_named n (http k m) = class_name k == n
is_named n (http_reason k m r) = class_name k == n
is_named n (error e m) = e == n
is_named n value = false

-- `error instanceof Error ? error.message : other`
abbrev pub message_or : String → Thrown → String
message_or other (http k m) = m
message_or other (http_reason k m r) = m
message_or other (error e m) = m
message_or other value = other

-- `error instanceof ConflictException`
abbrev pub is_conflict : Thrown → Bool
is_conflict (http conflict m) = true
is_conflict (http_reason conflict m r) = true
is_conflict _ = false

-- `error instanceof GatewayTimeoutException`
abbrev pub is_timeout : Thrown → Bool
is_timeout (http gateway_timeout m) = true
is_timeout (http_reason gateway_timeout m r) = true
is_timeout _ = false

abbrev pub is_ok {ℓ} : {A : Type ℓ} → Result A → Bool
is_ok (ok a) = true
is_ok (err e) = false

pub Result-cases {ℓ} :
    {A : Type ℓ} (r : Result A) → ((e : Thrown) × (r ≡ err e)) ⊎ ((a : A) × (r ≡ ok a))
Result-cases (ok a) = inr (a, refl)
Result-cases (err e) = inl (e, refl)
