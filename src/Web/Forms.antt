-- ===== src/Web/Forms.antt =====
-- The forms of a resident: handleSubmit of frontend/src/app/register/page.tsx, and the profile of
-- frontend/src/app/me/page.tsx. What `toLowerCase` gives is a parameter.
mod Tests
use parking_gate_remote.Common.{
  ℕ, zero, String, ℤ, pos, negsuc, Bool, true, false, not, Option, none, some, List, [], ◌∷◌, ◌==◌,
  ◌&&◌, ◌||◌, if◌then◌else◌, any, leb, eqb,
}
use parking_gate_remote.Common.Text.{codes, starts_with}
use parking_gate_remote.Users.Schema.{User}
use parking_gate_remote.Web.Phone.{parse_phone, validate_phone_number}
use parking_gate_remote.Web.Phone.Parts.{join}
use parking_gate_remote.Web.Numerals.{parse_int}

pub record RegisterForm : Type 0 where
  pub email : String
  pub password : String
  pub first_name : String
  pub last_name : String
  pub phone_prefix : String
  pub phone_number : String
  pub apartment_number : String
  pub floor : String

-- The body of the request.
pub record Registration : Type 0 where
  pub email : String
  pub password : String
  pub first_name : String
  pub last_name : String
  pub phone : String
  pub apartment_number : ℤ
  pub floor : ℤ

-- A message in place of a request, or the body of the request.
pub data Submitted (B : Type 0) : Type 0 where
  refused : String → Submitted B
  sends : B → Submitted B

abbrev wrong_phone : String
wrong_phone =
    "\u{5de}\u{5e1}\u{5e4}\u{5e8} \u{5d8}\u{5dc}\u{5e4}\u{5d5}\u{5df} \u{5dc}\u{5d0} \u{5ea}\u{5e7}\u{5d9}\u{5df}"

abbrev registration : RegisterForm → ℤ → ℤ → Registration
registration f apartment floor = record {
  email = f.email;
  password = f.password;
  first_name = f.first_name;
  last_name = f.last_name;
  phone = join f.phone_prefix f.phone_number;
  apartment_number = apartment;
  floor = floor;
}

abbrev submit_numbers : RegisterForm → Option ℤ → Option ℤ → Submitted Registration
submit_numbers f (some apartment) (some floor) =
    if f.phone_prefix == "" || f.phone_number == ""
    then refused wrong_phone
    else if not (validate_phone_number f.phone_prefix f.phone_number)
    then refused wrong_phone
    else sends (registration f apartment floor)
submit_numbers f (some apartment) none =
    refused
      "\u{5de}\u{5e1}\u{5e4}\u{5e8} \u{5d3}\u{5d9}\u{5e8}\u{5d4} \u{5d5}\u{5e7}\u{5d5}\u{5de}\u{5d4} \u{5d7}\u{5d9}\u{5d9}\u{5d1}\u{5d9}\u{5dd} \u{5dc}\u{5d4}\u{5d9}\u{5d5}\u{5ea} \u{5de}\u{5e1}\u{5e4}\u{5e8}\u{5d9}\u{5dd}"
submit_numbers f none floor =
    refused
      "\u{5de}\u{5e1}\u{5e4}\u{5e8} \u{5d3}\u{5d9}\u{5e8}\u{5d4} \u{5d5}\u{5e7}\u{5d5}\u{5de}\u{5d4} \u{5d7}\u{5d9}\u{5d9}\u{5d1}\u{5d9}\u{5dd} \u{5dc}\u{5d4}\u{5d9}\u{5d5}\u{5ea} \u{5de}\u{5e1}\u{5e4}\u{5e8}\u{5d9}\u{5dd}"

-- `handleSubmit`, up to the request
unfoldable pub submit_registration : RegisterForm → Submitted Registration
submit_registration f = submit_numbers f (parse_int f.apartment_number) (parse_int f.floor)

-- `/[\u0590-\u05FF]/`
abbrev is_hebrew : ℕ → Bool
is_hebrew c = leb 1424 c && leb c 1535

-- `text.includes(part)`
abbrev pub contains : List ℕ → List ℕ → Bool
contains part [] = starts_with part []
contains part (c ∷ s) = starts_with part (c ∷ s) || contains part s

abbrev says : String → String → Bool
says part message = contains (codes part) (codes message)

abbrev pub translated : (String → String) → String → String
translated lower message =
    let e = lower message in
    if any is_hebrew (codes message)
    then message
    else if says "name" e || says "should not be empty" e
    then "\u{5d9}\u{5e9} \u{5dc}\u{5de}\u{5dc}\u{5d0} \u{5d0}\u{5ea} \u{5db}\u{5dc} \u{5d4}\u{5e9}\u{5d3}\u{5d5}\u{5ea} \u{5d4}\u{5e0}\u{5d3}\u{5e8}\u{5e9}\u{5d9}\u{5dd}"
    else if says "email" e
    then "\u{5db}\u{5ea}\u{5d5}\u{5d1}\u{5ea} \u{5d0}\u{5d9}\u{5de}\u{5d9}\u{5d9}\u{5dc} \u{5dc}\u{5d0} \u{5ea}\u{5e7}\u{5d9}\u{5e0}\u{5d4}"
    else if says "password" e || says "minlength" e
    then "\u{5d4}\u{5e1}\u{5d9}\u{5e1}\u{5de}\u{5d4} \u{5d7}\u{5d9}\u{5d9}\u{5d1}\u{5ea} \u{5dc}\u{5d4}\u{5db}\u{5d9}\u{5dc} \u{5dc}\u{5e4}\u{5d7}\u{5d5}\u{5ea} 6 \u{5ea}\u{5d5}\u{5d5}\u{5d9}\u{5dd}"
    else if says "already exists" e || says "exists" e
    then "\u{5db}\u{5ea}\u{5d5}\u{5d1}\u{5ea} \u{5d0}\u{5d9}\u{5de}\u{5d9}\u{5d9}\u{5dc} \u{5d6}\u{5d5} \u{5db}\u{5d1}\u{5e8} \u{5e8}\u{5e9}\u{5d5}\u{5de}\u{5d4} \u{5d1}\u{5de}\u{5e2}\u{5e8}\u{5db}\u{5ea}"
    else "\u{5e9}\u{5d2}\u{5d9}\u{5d0}\u{5d4} \u{5d1}\u{5d4}\u{5e8}\u{5e9}\u{5de}\u{5d4}. \u{5d0}\u{5e0}\u{5d0} \u{5e0}\u{5e1}\u{5d4} \u{5e9}\u{5d5}\u{5d1}."

-- What is shown when the registration fails; `none` is no `Error`.
abbrev pub registration_error : (String → String) → Option String → String
registration_error lower none =
    "\u{5e9}\u{5d2}\u{5d9}\u{5d0}\u{5d4} \u{5d1}\u{5d4}\u{5e8}\u{5e9}\u{5de}\u{5d4}"
registration_error lower (some message) = translated lower message

-- The profile in the form.
pub record Profile : Type 0 where
  pub first_name : String
  pub last_name : String
  pub phone_prefix : String
  pub phone_number : String
  pub apartment_number : ℤ
  pub floor : ℤ

pub record ProfileBody : Type 0 where
  pub first_name : String
  pub last_name : String
  pub phone : String
  pub apartment_number : ℤ
  pub floor : ℤ

-- the effect that fills the form in
unfoldable pub profile_of : User → Profile
profile_of u = record {
  first_name = u.first_name;
  last_name = u.last_name;
  phone_prefix = (parse_phone u.phone).prefix;
  phone_number = (parse_phone u.phone).number;
  apartment_number = u.apartment_number;
  floor = u.floor;
}

abbrev same_number : ℤ → ℤ → Bool
same_number (pos m) (pos n) = eqb m n
same_number (negsuc m) (negsuc n) = eqb m n
same_number _ _ = false

-- `hasChanges` for a user who is there
unfoldable pub profile_has_changes : User → Profile → Bool
profile_has_changes u p =
    not (p.first_name == u.first_name)
    || not (p.last_name == u.last_name)
    || not (join p.phone_prefix p.phone_number == u.phone)
    || not (same_number p.apartment_number u.apartment_number)
    || not (same_number p.floor u.floor)

-- `handleSubmit`, up to the request
unfoldable pub submit_profile : Profile → Submitted ProfileBody
submit_profile p =
    if not (validate_phone_number p.phone_prefix p.phone_number)
    then refused wrong_phone
    else sends (record {
      first_name = p.first_name;
      last_name = p.last_name;
      phone = join p.phone_prefix p.phone_number;
      apartment_number = p.apartment_number;
      floor = p.floor;
    })
