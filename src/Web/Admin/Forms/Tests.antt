-- ===== src/Web/Admin/Forms/Tests.antt =====
-- The edit form for a rejected user with an apartment changed
-- (frontend/src/app/admin/AdminPageContent.tsx).
use parking_gate_remote.Common.{
  String, ◌≡◌, ◌==◌, ◌∙◌, ap, refl, Bool, true, false, Option, some, List, [], ◌∷◌, pos, leb,
}
use parking_gate_remote.Common.Http.{error, http, bad_request, ok, err}
use parking_gate_remote.Mongo.Lists.{lists}
use parking_gate_remote.Users.{Db, new_user, find_by_id}
use parking_gate_remote.Users.Schema.{User, rejected, admin}
use parking_gate_remote.Auth.Tokens.Plain.{plain}
use parking_gate_remote.Admin.{AdminCall, UpdateUserDto}
use parking_gate_remote.Admin.Validators.{ClassValidator, meets_both}
use parking_gate_remote.Admin.Listing.{UserItem, user_item}
use parking_gate_remote.Web.Phone.{validate_phone_number}
use parking_gate_remote.Web.Numerals.{parse_int, scan}
use parking_gate_remote.Web.Trim.{trim, trim_end, blank}
use parking_gate_remote.Web.Admin.Server.{serve, submit}
use parking_gate_remote.Web.Admin.Forms.{
  EditForm, AdminRequest, patch_user, patch_role, asks, refused, handle_edit_user,
  handle_reset_password, opened_form, has_changes, edit_body,
}
use parking_gate_remote.Web.Admin.Forms.Saved.{Saved, handle_edit_user-Saved}
use Prim.Native.String.{count}
use parking_gate_remote.Web.Admin.Forms.Opened.{as_it_is, opened_form-handle_edit_user}

abbrev applicant : User
applicant = new_user "u1" 3 (record {
  email = "dana@x.org";
  password_hash = "h";
  first_name = "Dana";
  last_name = "Bar";
  phone = "0501234567";
  apartment_number = pos 4;
  floor = pos 2;
  status = some rejected;
  rejection_reason = some "unknown";
})

abbrev item : UserItem
item = user_item (λ u. 9) applicant []

abbrev form : EditForm
form = record {
  first_name = "Dana";
  last_name = "Bar";
  phone_prefix = "050";
  phone_number = "1234567";
  apartment_number = "12";
  floor = "2";
  status = rejected;
  rejection_reason = "unknown";
  role = admin;
}

abbrev db : Db
db = record { users = applicant ∷ []; sessions = [] }

abbrev call : AdminCall
call = record { now = 50; later = 51; salt = 0; email_sent = true }

abbrev requests : List AdminRequest
requests = patch_user "u1" (edit_body form (pos 12) (pos 2)) ∷ patch_role "u1" admin ∷ []

asked : handle_edit_user (some item) form ≡ asks requests
unfolding handle_edit_user parse_int scan validate_phone_number trim trim_end blank
asked = refl

-- A reason is accepted if both validators accept it.
abbrev validated : UpdateUserDto → Option (Option String) → Bool
validated dto (some (some r)) = meets_both trim dto r
validated dto _ = true

abbrev validator : ClassValidator
validator = record {
  reason_passes = λ dto. validated dto dto.rejection_reason;
  min_length = λ n s. leb n (count s);
  message = "Bad Request";
}

accepts_both :
    (dto : UpdateUserDto) (reason : String)
    → dto.rejection_reason ≡ some (some reason)
    → meets_both trim dto reason ≡ true
    → validator.reason_passes dto ≡ true
accepts_both dto reason given h = ap (validated dto) given ∙ h

handle_edit_user-Saved_example :
    ((submit lists plain validator "u9" (error "" "") call requests db).0 ≡ ok tt)
    × (v : User) × (find_by_id lists "u1"
          ((submit lists plain validator "u9" (error "" "") call requests db).1)
        ≡ some v)
    × Saved form v
handle_edit_user-Saved_example =
    handle_edit_user-Saved lists plain validator "u9" (error "" "") call accepts_both (λ u. 9)
      applicant [] form requests db refl asked

-- The page sends a form without a first name, and the server refuses it.
abbrev nameless : EditForm
nameless = record form { first_name = "" }

abbrev nameless_requests : List AdminRequest
nameless_requests =
    patch_user "u1" (edit_body nameless (pos 12) (pos 2)) ∷ patch_role "u1" admin ∷ []

nameless_sent : handle_edit_user (some item) nameless ≡ asks nameless_requests
unfolding handle_edit_user parse_int scan validate_phone_number trim trim_end blank
nameless_sent = refl

nameless_refused :
    submit lists plain validator "u9" (error "" "") call nameless_requests db
    ≡ (err (http bad_request "Bad Request"), db)
unfolding submit serve
nameless_refused = refl

not_blank : (trim "unknown" == "") ≡ false
unfolding trim trim_end blank
not_blank = refl

opened_form-handle_edit_user_example :
    (has_changes item (opened_form item) ≡ false)
    × (handle_edit_user (some item) (opened_form item)
        ≡ asks (patch_user "u1" (as_it_is item) ∷ []))
opened_form-handle_edit_user_example =
    opened_form-handle_edit_user item "050" "1234567" refl refl refl refl not_blank

-- A password of five characters is refused before any request.
too_short :
    (m : String) × (handle_reset_password
        (some item)
        (record { new_password = "12345"; confirm_password = "12345" })
      ≡ refused m)
unfolding handle_reset_password
too_short = (_, refl)
