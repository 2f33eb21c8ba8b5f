-- ===== src/Admin/Validators.antt =====
-- What the ValidationPipe of backend/src/main.ts lets through to the routes of an admin:
-- backend/src/admin/dto/update-user.dto.ts and reset-password.dto.ts. The types of the fields are
-- those of the bodies' records, so that the tests that are left are those on the values.
use parking_gate_remote.Common.{ℕ, String, Bool, true, not, Option, none, some, ◌==◌, ◌&&◌, ◌||◌}
use parking_gate_remote.Common.Text.{codes}
use parking_gate_remote.Common.Http.{Thrown, http, bad_request}
use parking_gate_remote.Users.Schema.{Status}
use parking_gate_remote.Admin.{UpdateUserDto, ResetPasswordDto, is_rejected}
use parking_gate_remote.Web.Phone.Pattern.{matches_phone}

-- What class-validator makes of the two conditions on a reason that is given, its `MinLength`, and
-- the message of a refusal.
pub record ClassValidator : Type 0 where
  pub reason_passes : UpdateUserDto → Bool
  pub min_length : ℕ → String → Bool
  pub message : String

module _ (trim : String → String) where
  abbrev is_blank : Option String → Bool
  is_blank none = true
  is_blank (some r) = trim r == ""

  -- `RejectionReasonValidator`
  abbrev pub rejection_reason_validator : Option Status → Option String → Bool
  rejection_reason_validator none reason = true
  rejection_reason_validator (some s) reason = not (is_rejected s) || not (is_blank reason)

  -- `RejectionReasonNullValidator`
  abbrev pub rejection_reason_null_validator : Option Status → Option String → Bool
  rejection_reason_null_validator none reason = true
  rejection_reason_null_validator (some s) reason = is_rejected s || is_blank reason

  -- Both validators accept the reason.
  abbrev pub meets_both : UpdateUserDto → String → Bool
  meets_both dto reason =
      rejection_reason_validator dto.status (some reason)
      && rejection_reason_null_validator dto.status (some reason)

abbrev is_name : Option String → Bool
is_name none = true
is_name (some s) = not (s == "")

abbrev is_phone : Option String → Bool
is_phone none = true
is_phone (some s) = matches_phone (codes s)

module _ (v : ClassValidator) where
  -- `@IsOptional()`: a reason that is missing or `null` is not looked at.
  abbrev reason_accepted : UpdateUserDto → Option (Option String) → Bool
  reason_accepted dto none = true
  reason_accepted dto (some none) = true
  reason_accepted dto (some (some r)) = v.reason_passes dto

  -- `UpdateUserDto`
  abbrev pub update_passes : UpdateUserDto → Bool
  update_passes dto =
      is_name dto.first_name
      && is_name dto.last_name
      && is_phone dto.phone
      && reason_accepted dto dto.rejection_reason

  -- `ResetPasswordDto`
  abbrev pub password_passes : ResetPasswordDto → Bool
  password_passes dto =
      not (dto.new_password == "")
      && v.min_length 6 dto.new_password
      && not (dto.confirm_password == "")

  abbrev pub not_valid : Thrown
  not_valid = http bad_request v.message
