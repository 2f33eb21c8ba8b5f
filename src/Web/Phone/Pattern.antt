-- ===== src/Web/Phone/Pattern.antt =====
-- The server's pattern of a telephone number, and the numbers that the forms send
-- (backend/src/auth/dto/register.dto.ts, frontend/src/lib/phone.ts).
use parking_gate_remote.Common.{
  ℕ, String, ◌≡◌, refl, ◌∙◌, Bool, true, false, List, [], ◌∷◌, ◌&&◌, ◌||◌, every, eqb, length, All,
  arith, sym, ap,
}
use parking_gate_remote.Common.Text.{codes, is_digit}
use parking_gate_remote.Web.Phone.{includes, validate_phone_number}
use parking_gate_remote.Web.Phone.Parts.{
  join, israel_phone_prefixes, any-All, validate_phone_number-prefix,
}
use Prim.Native.String
use Prim.Native.String.{count}

abbrev seven_digits : List ℕ → Bool
seven_digits s = eqb (length s) 7 && every is_digit s

abbrev digit_first : List ℕ → Bool
digit_first [] = false
digit_first (c ∷ s) = is_digit c && seven_digits s

abbrev after_zero : List ℕ → Bool
after_zero [] = false
after_zero (d ∷ s) =
    ((eqb d b'2' || eqb d b'3' || eqb d b'4' || eqb d b'8' || eqb d b'9') && seven_digits s)
    || (eqb d b'5' && digit_first s)

-- `/^0(2|3|4|5[0-9]|8|9)[0-9]{7}$/`
abbrev pub matches_phone : List ℕ → Bool
matches_phone [] = false
matches_phone (c ∷ s) = eqb c b'0' && after_zero s

abbrev Matched : String → Type 0
Matched p =
    (n : String)
    → every is_digit (codes n) ≡ true
    → matches_phone (codes (join p n)) ≡ eqb (length (codes n)) 7

seven_digits-every : (s : List ℕ) → every is_digit s ≡ true → seven_digits s ≡ eqb (length s) 7
seven_digits-every s h = ground (arith, h)

length-count : (n : String) → length (codes n) ≡ count n
length-count Prim.Native.String.[] = refl
length-count (Prim.Native.String.◌∷◌ c n) =
    omega (arith, length-count n, Prim.Native.String.count.cons c n)

at_seven :
    (n : String) (h : every is_digit (codes n) ≡ true)
    → seven_digits (codes n) ≡ eqb (length (codes n)) 7
at_seven n h = seven_digits-every (codes n) h

or_false : (b : Bool) → (b || false) ≡ b
or_false true = refl
or_false false = refl

prefixes-Matched : All Matched israel_phone_prefixes
prefixes-Matched = (
  λ n h. at_seven n h,
  (
    λ n h. at_seven n h,
    (
      λ n h. at_seven n h,
      (
        λ n h. at_seven n h,
        (
          λ n h. at_seven n h,
          (
            λ n h. at_seven n h,
            (
              λ n h. at_seven n h,
              (
                λ n h. at_seven n h,
                (
                  λ n h. or_false (seven_digits (codes n)) ∙ at_seven n h,
                  (
                    λ n h. or_false (seven_digits (codes n)) ∙ at_seven n h,
                    (
                      λ n h. or_false (seven_digits (codes n)) ∙ at_seven n h,
                      (
                        λ n h. or_false (seven_digits (codes n)) ∙ at_seven n h,
                        (λ n h. or_false (seven_digits (codes n)) ∙ at_seven n h, tt),
                      ),
                    ),
                  ),
                ),
              ),
            ),
          ),
        ),
      ),
    ),
  ),
)

-- For a prefix that the forms offer and digits, the number that the forms put together meets the
-- pattern of the server exactly if the forms accept the two parts.
pub matches_phone-join :
    (p n : String)
    → includes israel_phone_prefixes p ≡ true
    → every is_digit (codes n) ≡ true
    → matches_phone (codes (join p n)) ≡ validate_phone_number p n
matches_phone-join p n h d =
    any-All Matched israel_phone_prefixes p prefixes-Matched h n d
    ∙ ap (λ m. eqb m 7) (length-count n)
    ∙ sym (validate_phone_number-prefix p n h d)
