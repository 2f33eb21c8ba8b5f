-- ===== src/Web/Numerals.antt =====
-- What the pages use of JavaScript's numbers: `String(n)` and `parseInt(s, 10)` on whole numbers.
-- A number beyond 2^53, which JavaScript rounds, is not modelled, and -0 is 0.
mod Tests
use Prim.Native.Char.{Char, code}
use parking_gate_remote.Common.{
  ℕ, zero, suc, ◌+◌, ◌-◌, ◌*◌, ◌/◌, ◌%◌, ◌<◌, ◌≤◌, String, ℤ, pos, negsuc, ◌≡◌, refl, ap, inl, inr,
  Bool, true, false, Option, none, some, eqb, ltb, if◌then◌else◌, Bool-cases, arith, ◌∙◌,
}
use parking_gate_remote.Common.Text.{is_digit}
use parking_gate_remote.Web.Phone.{is_space}

abbrev digit_char : ℕ → Char
digit_char d =
    if eqb d 0
    then "0"
    else if eqb d 1
    then "1"
    else if eqb d 2
    then "2"
    else if eqb d 3
    then "3"
    else if eqb d 4
    then "4"
    else if eqb d 5
    then "5"
    else if eqb d 6
    then "6"
    else if eqb d 7
    then "7"
    else if eqb d 8
    then "8"
    else "9"

-- The digits of a number in front of a text; any fuel above the number is enough.
unfoldable pub decimal : ℕ → ℕ → String → String
decimal zero n acc = acc
decimal (suc k) n acc = elim (ltb n 10) [
  | true ↦ String.◌∷◌ (digit_char n) acc
  | false ↦ decimal k (n / 10) (String.◌∷◌ (digit_char (n % 10)) acc)
]

-- `String(n)`
abbrev pub number_text : ℤ → String
number_text (pos n) = decimal (suc n) n ""
number_text (negsuc n) = String.◌∷◌ "-" (decimal (suc (suc n)) (suc n) "")

-- The value of the digits that a text goes on with, behind those that are read.
unfoldable pub scan : ℕ → String → ℕ
scan a String.[] = a
scan a (String.◌∷◌ c s) = elim (is_digit (code c)) [
  | true ↦ scan (a * 10 + (code c - b'0')) s
  | false ↦ a
]

abbrev pub starts_digit : String → Bool
starts_digit String.[] = false
starts_digit (String.◌∷◌ c s) = is_digit (code c)

abbrev natural : String → Option ℕ
natural s = if starts_digit s then some (scan 0 s) else none

abbrev negative : Option ℕ → Option ℤ
negative none = none
negative (some zero) = some (pos zero)
negative (some (suc n)) = some (negsuc n)

abbrev positive : Option ℕ → Option ℤ
positive none = none
positive (some n) = some (pos n)

abbrev pub skip_spaces : String → String
skip_spaces String.[] = String.[]
skip_spaces (String.◌∷◌ c s) = if is_space (code c) then skip_spaces s else String.◌∷◌ c s

abbrev signed : String → Option ℤ
signed String.[] = none
signed (String.◌∷◌ c s) =
    if eqb (code c) b'-'
    then negative (natural s)
    else if eqb (code c) b'+'
    then positive (natural s)
    else positive (natural (String.◌∷◌ c s))

-- `parseInt(s, 10)`; NaN is `none`.
unfoldable pub parse_int : String → Option ℤ
parse_int s = signed (skip_spaces s)

code-digit_char : (d : ℕ) → d < 10 → code (digit_char d) ≡ 48 + d
code-digit_char zero h = refl
code-digit_char (suc zero) h = refl
code-digit_char (suc (suc zero)) h = refl
code-digit_char (suc (suc (suc zero))) h = refl
code-digit_char (suc (suc (suc (suc zero)))) h = refl
code-digit_char (suc (suc (suc (suc (suc zero))))) h = refl
code-digit_char (suc (suc (suc (suc (suc (suc zero)))))) h = refl
code-digit_char (suc (suc (suc (suc (suc (suc (suc zero))))))) h = refl
code-digit_char (suc (suc (suc (suc (suc (suc (suc (suc zero)))))))) h = refl
code-digit_char (suc (suc (suc (suc (suc (suc (suc (suc (suc zero))))))))) h = refl
code-digit_char (suc (suc (suc (suc (suc (suc (suc (suc (suc (suc (d))))))))))) h =
    absurd (omega arith)

digit_char-digit : (d : ℕ) → d < 10 → is_digit (code (digit_char d)) ≡ true
digit_char-digit d h = ground (arith, code-digit_char d h)

tenth : (n : ℕ) → n / 10 * 10 + n % 10 ≡ n
tenth n = omega arith

scan-digit :
    (a d : ℕ) (acc : String)
    → d < 10
    → scan a (String.◌∷◌ (digit_char d) acc) ≡ scan (a * 10 + d) acc
unfolding scan
scan-digit a d acc h = ground (arith, code-digit_char d h, digit_char-digit d h)

scan-decimal :
    (k n : ℕ) (acc : String)
    → n < k
    → (scan 0 (decimal k n acc) ≡ scan n acc) × (starts_digit (decimal k n acc) ≡ true)
unfolding decimal
scan-decimal zero n acc h = absurd (omega arith)
scan-decimal (suc k) n acc h = elim (Bool-cases (ltb n 10)) [
  | inl small ↦ ground (arith, small, scan-digit 0 n acc, digit_char-digit n)
  | inr large ↦ ground (
    arith,
    large,
    tenth n,
    scan-digit (n / 10) (n % 10) acc,
    scan-decimal k (n / 10) (String.◌∷◌ (digit_char (n % 10)) acc),
  )
]

starts-parse_int : (s : String) → starts_digit s ≡ true → parse_int s ≡ some (pos (scan 0 s))
unfolding parse_int
starts-parse_int String.[] h = ground arith
starts-parse_int (String.◌∷◌ c s) h = ground arith

parse_int-decimal : (n : ℕ) → parse_int (decimal (suc n) n "") ≡ some (pos n)
unfolding scan
parse_int-decimal n =
    ground (arith, scan-decimal (suc n) n "", starts-parse_int (decimal (suc n) n ""))

-- The text of a whole number is read as that number.
pub parse_int-number_text : (z : ℤ) → parse_int (number_text z) ≡ some z
unfolding parse_int scan
parse_int-number_text (pos n) = parse_int-decimal n
parse_int-number_text (negsuc n) = ground (arith, scan-decimal (suc (suc n)) (suc n) "")
