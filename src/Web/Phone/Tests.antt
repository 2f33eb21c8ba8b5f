-- ===== src/Web/Phone/Tests.antt =====
-- A mobile number with a dash and a space (frontend/src/lib/phone.ts).
use parking_gate_remote.Common.{◌≡◌, refl, true, false}
use parking_gate_remote.Web.Phone.{parse_phone, validate_phone_number}
use parking_gate_remote.Common.Text.{codes}
use parking_gate_remote.Web.Phone.Parts.{join}
use parking_gate_remote.Web.Phone.Pattern.{matches_phone, matches_phone-join}

unknown_prefix : parse_phone "0561234567" ≡ record { prefix = ""; number = "" }
unfolding parse_phone
unknown_prefix = refl

-- A dash is not looked at by the form, and not taken by the server.
dashed :
    (validate_phone_number "052" "123-4567" ≡ true)
    × (matches_phone (codes (join "052" "123-4567")) ≡ false)
unfolding validate_phone_number
dashed = (refl, refl)

matches_phone-join_example :
    matches_phone (codes (join "052" "1234567")) ≡ validate_phone_number "052" "1234567"
matches_phone-join_example = matches_phone-join "052" "1234567" refl refl
