-- ===== src/Web/Forms/Tests.antt =====
-- A profile whose number the page does not know, and messages of the server
-- (frontend/src/app/me/page.tsx, frontend/src/app/register/page.tsx).
use parking_gate_remote.Common.{String, ◌≡◌, refl, true, false, none, pos}
use parking_gate_remote.Users.{new_user}
use parking_gate_remote.Users.Schema.{User}
use parking_gate_remote.Web.Phone.{parse_phone, validate_phone_number}
use parking_gate_remote.Web.Phone.Pattern.{matches_phone}
use parking_gate_remote.Common.Text.{codes}
use parking_gate_remote.Web.Forms.{profile_of, profile_has_changes, submit_profile, refused}

abbrev with_phone : String → User
with_phone phone = new_user "u1" 3 (record {
  email = "dana@x.org";
  password_hash = "h";
  first_name = "Dana";
  last_name = "Bar";
  phone = phone;
  apartment_number = pos 4;
  floor = pos 2;
  status = none;
  rejection_reason = none;
})

known : profile_has_changes (with_phone "0521234567") (profile_of (with_phone "0521234567")) ≡ false
unfolding profile_has_changes profile_of parse_phone
known = refl

-- The server takes a number that starts with 056; the page shows it as changed and does not send it.
taken : matches_phone (codes "0561234567") ≡ true
taken = refl

shown_as_changed :
    profile_has_changes (with_phone "0561234567") (profile_of (with_phone "0561234567")) ≡ true
unfolding profile_has_changes profile_of parse_phone
shown_as_changed = refl

unsent : (m : String) × (submit_profile (profile_of (with_phone "0561234567")) ≡ refused m)
unfolding submit_profile profile_of parse_phone validate_phone_number
unsent = (_, refl)
