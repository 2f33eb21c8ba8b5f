-- ===== src/Web/Phone.antt =====
-- Israeli telephone numbers: frontend/src/lib/phone.ts.
pub mod Parts
pub mod Pattern
mod Tests
use parking_gate_remote.Common.{
  ℕ, zero, suc, String, Bool, true, false, List, [], ◌∷◌, ◌==◌, ◌&&◌, ◌||◌, if◌then◌else◌, any, eqb,
  leb,
}
use parking_gate_remote.Common.Text.{codes, is_digit, starts_with}
use Prim.Native.Char.{code}
use Prim.Native.String.{count}

-- A number in its two parts.
pub record Phone : Type 0 where
  pub prefix : String
  pub number : String

abbrev pub unparsed : Phone
unparsed = record { prefix = ""; number = "" }

abbrev pub mobile_prefixes : List String
mobile_prefixes = "050" ∷ "051" ∷ "052" ∷ "053" ∷ "054" ∷ "055" ∷ "058" ∷ "059" ∷ []

abbrev pub landline_prefixes : List String
landline_prefixes = "02" ∷ "03" ∷ "04" ∷ "08" ∷ "09" ∷ []

-- `list.includes(s)`
abbrev pub includes : List String → String → Bool
includes ps s = any (λ p. p == s) ps

-- `\s` of a pattern
abbrev pub is_space : ℕ → Bool
is_space c =
    (leb 9 c && leb c 13)
    || eqb c 32
    || eqb c 160
    || eqb c 5760
    || (leb 8192 c && leb c 8202)
    || eqb c 8232
    || eqb c 8233
    || eqb c 8239
    || eqb c 8287
    || eqb c 12288
    || eqb c 65279

abbrev pub is_separator : ℕ → Bool
is_separator c = is_space c || eqb c b'-'

-- `s.replace(/[\s-]/g, "")`
abbrev pub without_separators : String → String
without_separators String.[] = String.[]
without_separators (String.◌∷◌ c s) =
    let rest = without_separators s in if is_separator (code c) then rest else String.◌∷◌ c rest

-- `s.replace(/\D/g, "")`
abbrev pub digits : String → String
digits String.[] = String.[]
digits (String.◌∷◌ c s) =
    let rest = digits s in if is_digit (code c) then String.◌∷◌ c rest else rest

-- `s.substring(0, n)` and `s.substring(n)`
abbrev pub prefix_of : ℕ → String → String
prefix_of zero s = String.[]
prefix_of (suc n) String.[] = String.[]
prefix_of (suc n) (String.◌∷◌ c s) = String.◌∷◌ c (prefix_of n s)

abbrev pub rest_of : ℕ → String → String
rest_of zero s = s
rest_of (suc n) String.[] = String.[]
rest_of (suc n) (String.◌∷◌ c s) = rest_of n s

abbrev pub split_at : ℕ → String → Phone
split_at n s = record { prefix = prefix_of n s; number = rest_of n s }

abbrev pub parse_landline : String → Phone
parse_landline cleaned =
    if leb 2 (count cleaned) && includes landline_prefixes (prefix_of 2 cleaned)
    then split_at 2 cleaned
    else unparsed

abbrev pub parse_cleaned : String → Phone
parse_cleaned cleaned =
    if starts_with (codes "0") (codes cleaned)
    then (if leb 3 (count cleaned)
          && starts_with (codes "05") (codes cleaned)
          && includes mobile_prefixes (prefix_of 3 cleaned)
        then split_at 3 cleaned
        else parse_landline cleaned)
    else unparsed

-- `parsePhone`
unfoldable pub parse_phone : String → Phone
parse_phone phone = if phone == "" then unparsed else parse_cleaned (without_separators phone)

-- `validatePhoneNumber`
unfoldable pub validate_phone_number : String → String → Bool
validate_phone_number prefix number =
    if prefix == "" || number == ""
    then false
    else if (starts_with (codes "05") (codes prefix) && eqb (count prefix) 3)
        || includes landline_prefixes prefix
    then eqb (count (digits number)) 7
    else false
