-- ===== src/Web/Admin/Forms.antt =====
-- The forms of the admin's page, up to the requests that they make: the handlers of
-- frontend/src/app/admin/AdminPageContent.tsx. A body is written as the server's DTO reads it, and
-- the user is an item of the list of users. What is shown after a request is in Dialogs.
pub mod Saved
pub mod Opened
mod Tests
use parking_gate_remote.Common.{
  ℕ, ◌+◌, String, ℤ, Bool, true, false, not, Option, none, some, List, [], ◌∷◌, ◌==◌, ◌&&◌, ◌||◌,
  if◌then◌else◌, ltb, text_or,
}
use parking_gate_remote.Users.Schema.{
  Status, pending, approved, rejected, archived, Role, user, admin,
}
use parking_gate_remote.Admin.{UpdateUserDto, ResetPasswordDto, is_rejected}
use parking_gate_remote.Admin.Listing.{UserItem, same_status}
use parking_gate_remote.Web.Phone.{parse_phone, validate_phone_number}
use parking_gate_remote.Web.Phone.Parts.{join}
use parking_gate_remote.Web.Numerals.{number_text, parse_int}
use parking_gate_remote.Web.Trim.{trim}
use Prim.Native.Char.{code}

pub record EditForm : Type 0 where
  pub first_name : String
  pub last_name : String
  pub phone_prefix : String
  pub phone_number : String
  pub apartment_number : String
  pub floor : String
  pub status : Status
  pub rejection_reason : String
  pub role : Role

pub record PasswordForm : Type 0 where
  pub new_password : String
  pub confirm_password : String

abbrev pub no_password : PasswordForm
no_password = record { new_password = ""; confirm_password = "" }

-- The requests of the page that change users.
pub data AdminRequest : Type 0 where
  patch_user : String → UpdateUserDto → AdminRequest
  patch_role : String → Role → AdminRequest
  patch_password : String → ResetPasswordDto → AdminRequest
  remove_user : String → AdminRequest
  reset_device : String → String → AdminRequest
  send_email : String → AdminRequest
  approve_all : AdminRequest

-- What a handler does: nothing, a message in place of a request, or the requests, of which each is
-- made if those before it succeeded.
pub data Attempt : Type 0 where
  ignored : Attempt
  refused : String → Attempt
  asks : List AdminRequest → Attempt

abbrev pub same_role : Role → Role → Bool
same_role user user = true
same_role admin admin = true
same_role _ _ = false

-- A body with a status and nothing else.
abbrev only_status : Status → UpdateUserDto
only_status s = record {
  first_name = none;
  last_name = none;
  phone = none;
  apartment_number = none;
  floor = none;
  status = some s;
  rejection_reason = none;
}

abbrev pub handle_approve_user : String → Attempt
handle_approve_user id = asks (patch_user id (only_status approved) ∷ [])

abbrev pub handle_archive_user : String → Attempt
handle_archive_user id = asks (patch_user id (only_status archived) ∷ [])

abbrev pub handle_reactivate_user : String → Attempt
handle_reactivate_user id = asks (patch_user id (only_status approved) ∷ [])

abbrev pub handle_approve_all : Attempt
handle_approve_all = asks (approve_all ∷ [])

abbrev pub handle_send_approval_email : String → Attempt
handle_send_approval_email id = asks (send_email id ∷ [])

abbrev pub handle_update_role : String → Role → Attempt
handle_update_role id role = asks (patch_role id role ∷ [])

-- With no device, the body is empty and all devices are meant.
abbrev pub handle_reset_device : String → String → Attempt
handle_reset_device id device = asks (reset_device id device ∷ [])

abbrev pub handle_delete_user : Option UserItem → Attempt
handle_delete_user none = ignored
handle_delete_user (some u) = asks (remove_user u.id ∷ [])

abbrev pub reason_missing : String
reason_missing =
    "\u{5d9}\u{5e9} \u{5dc}\u{5d4}\u{5d6}\u{5d9}\u{5df} \u{5e1}\u{5d9}\u{5d1}\u{5ea} \u{5d3}\u{5d7}\u{5d9}\u{5d9}\u{5d4}"

unfoldable pub handle_reject_user : Option UserItem → String → Attempt
handle_reject_user none reason = refused reason_missing
handle_reject_user (some u) reason =
    if trim reason == ""
    then refused reason_missing
    else asks (
        patch_user u.id
          (record (only_status rejected) { rejection_reason = some (some (trim reason)) })
        ∷ [])

-- `length`: the units of UTF-16
abbrev pub text_length : String → ℕ
text_length String.[] = 0
text_length (String.◌∷◌ c s) = (if ltb 65535 (code c) then 2 else 1) + text_length s

unfoldable pub handle_reset_password : Option UserItem → PasswordForm → Attempt
handle_reset_password none form = ignored
handle_reset_password (some u) form =
    if form.new_password == "" || form.confirm_password == ""
    then refused
        "\u{5d9}\u{5e9} \u{5dc}\u{5d4}\u{5d6}\u{5d9}\u{5df} \u{5e1}\u{5d9}\u{5e1}\u{5de}\u{5d4} \u{5d5}\u{5d0}\u{5d9}\u{5e9}\u{5d5}\u{5e8} \u{5e1}\u{5d9}\u{5e1}\u{5de}\u{5d4}"
    else if not (form.new_password == form.confirm_password)
    then refused
        "\u{5e1}\u{5d9}\u{5e1}\u{5de}\u{5d4} \u{5d5}\u{5d0}\u{5d9}\u{5e9}\u{5d5}\u{5e8} \u{5e1}\u{5d9}\u{5e1}\u{5de}\u{5d4} \u{5d0}\u{5d9}\u{5e0}\u{5dd} \u{5ea}\u{5d5}\u{5d0}\u{5de}\u{5d9}\u{5dd}"
    else if ltb (text_length form.new_password) 6
    then refused
        "\u{5e1}\u{5d9}\u{5e1}\u{5de}\u{5d4} \u{5d7}\u{5d9}\u{5d9}\u{5d1}\u{5ea} \u{5dc}\u{5d4}\u{5db}\u{5d9}\u{5dc} \u{5dc}\u{5e4}\u{5d7}\u{5d5}\u{5ea} 6 \u{5ea}\u{5d5}\u{5d5}\u{5d9}\u{5dd}"
    else asks (
        patch_password u.id
          (record { new_password = form.new_password; confirm_password = form.confirm_password })
        ∷ [])

-- `updateData`, with the two numbers read
abbrev pub edit_body : EditForm → ℤ → ℤ → UpdateUserDto
edit_body form apartment floor = record {
  first_name = some form.first_name;
  last_name = some form.last_name;
  phone = some (join form.phone_prefix form.phone_number);
  apartment_number = some apartment;
  floor = some floor;
  status = some form.status;
  rejection_reason =
      some (if is_rejected form.status then some (trim form.rejection_reason) else none);
}

-- the request for the role, if it is changed
abbrev pub role_request : UserItem → EditForm → List AdminRequest
role_request u form = if same_role form.role u.role then [] else patch_role u.id form.role ∷ []

abbrev pub edit_requests : UserItem → EditForm → ℤ → ℤ → Attempt
edit_requests u form apartment floor =
    if form.phone_prefix == "" || form.phone_number == ""
    then refused
        "\u{5de}\u{5e1}\u{5e4}\u{5e8} \u{5d8}\u{5dc}\u{5e4}\u{5d5}\u{5df} \u{5dc}\u{5d0} \u{5ea}\u{5e7}\u{5d9}\u{5df}"
    else if not (validate_phone_number form.phone_prefix form.phone_number)
    then refused
        "\u{5de}\u{5e1}\u{5e4}\u{5e8} \u{5d8}\u{5dc}\u{5e4}\u{5d5}\u{5df} \u{5dc}\u{5d0} \u{5ea}\u{5e7}\u{5d9}\u{5df}"
    else if is_rejected form.status && trim form.rejection_reason == ""
    then refused reason_missing
    else asks (patch_user u.id (edit_body form apartment floor) ∷ role_request u form)

abbrev not_numbers : String
not_numbers =
    "\u{5de}\u{5e1}\u{5e4}\u{5e8} \u{5d3}\u{5d9}\u{5e8}\u{5d4} \u{5d5}\u{5e7}\u{5d5}\u{5de}\u{5d4} \u{5d7}\u{5d9}\u{5d9}\u{5d1}\u{5d9}\u{5dd} \u{5dc}\u{5d4}\u{5d9}\u{5d5}\u{5ea} \u{5de}\u{5e1}\u{5e4}\u{5e8}\u{5d9}\u{5dd}"

abbrev pub edit_numbers : UserItem → EditForm → Option ℤ → Option ℤ → Attempt
edit_numbers u form (some apartment) (some floor) = edit_requests u form apartment floor
edit_numbers u form (some apartment) none = refused not_numbers
edit_numbers u form none floor = refused not_numbers

unfoldable pub handle_edit_user : Option UserItem → EditForm → Attempt
handle_edit_user none form = ignored
handle_edit_user (some u) form =
    edit_numbers u form (parse_int form.apartment_number) (parse_int form.floor)

-- the form that `openEditModal` fills in
unfoldable pub opened_form : UserItem → EditForm
opened_form u = record {
  first_name = u.first_name;
  last_name = u.last_name;
  phone_prefix = (parse_phone u.phone).prefix;
  phone_number = (parse_phone u.phone).number;
  apartment_number = number_text u.apartment_number;
  floor = number_text u.floor;
  status = u.status;
  rejection_reason = text_or u.rejection_reason "";
  role = u.role;
}

-- `editFormHasChanges` for a user who is selected
unfoldable pub has_changes : UserItem → EditForm → Bool
has_changes u form =
    let phone = parse_phone u.phone in
    not (form.first_name == u.first_name)
    || not (form.last_name == u.last_name)
    || not (join form.phone_prefix form.phone_number == join phone.prefix phone.number)
    || not (form.apartment_number == number_text u.apartment_number)
    || not (form.floor == number_text u.floor)
    || not (same_status form.status u.status)
    || not (same_role form.role u.role)
    || (is_rejected form.status && not (form.rejection_reason == text_or u.rejection_reason ""))
