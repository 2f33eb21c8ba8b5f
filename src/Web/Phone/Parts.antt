-- ===== src/Web/Phone/Parts.antt =====
-- The two parts of a telephone number, put together and taken apart (frontend/src/lib/phone.ts).
use parking_gate_remote.Common.{
  String, ◌≡◌, refl, ap, true, false, List, [], ◌∷◌, ◌++◌, ◌==◌, if◌then◌else◌, every, All, leb,
  eqb, ◌∙◌, arith, eq_iff, subst, sym, Bool-cases, inl, inr,
}
use parking_gate_remote.Common.Text.{codes, is_digit}
use parking_gate_remote.Web.Phone.{
  mobile_prefixes, landline_prefixes, includes, without_separators, digits, parse_cleaned,
  parse_phone, validate_phone_number,
}
use Prim.Native.Char.{Char}
use Prim.Native.String
use Prim.Native.String.{count}

-- `prefix + number`
abbrev pub join : String → String → String
join Prim.Native.String.[] s = s
join (Prim.Native.String.◌∷◌ c p) s = Prim.Native.String.◌∷◌ c (join p s)

-- ISRAEL_PHONE_PREFIXES
abbrev pub israel_phone_prefixes : List String
israel_phone_prefixes = mobile_prefixes ++ landline_prefixes

abbrev Parsed : String → Type 0
Parsed p = (n : String) → parse_cleaned (join p n) ≡ record { prefix = p; number = n }

-- a prefix of three digits, of which the rest of the test is decided
three_digits :
    (c d e : Char) (n : String)
    → leb 3
        (count (Prim.Native.String.◌∷◌ c (Prim.Native.String.◌∷◌ d (Prim.Native.String.◌∷◌ e n))))
      ≡ true
three_digits c d e n = ground (
  arith,
  Prim.Native.String.count.cons c (Prim.Native.String.◌∷◌ d (Prim.Native.String.◌∷◌ e n)),
  Prim.Native.String.count.cons d (Prim.Native.String.◌∷◌ e n),
  Prim.Native.String.count.cons e n,
)

two_digits :
    (c d : Char) (n : String)
    → leb 2 (count (Prim.Native.String.◌∷◌ c (Prim.Native.String.◌∷◌ d n))) ≡ true
two_digits c d n = ground (
  arith,
  Prim.Native.String.count.cons c (Prim.Native.String.◌∷◌ d n),
  Prim.Native.String.count.cons d n,
)

prefixes-Parsed : All Parsed israel_phone_prefixes
prefixes-Parsed = (
  λ n. ground (arith, three_digits "0" "5" "0" n),
  (
    λ n. ground (arith, three_digits "0" "5" "1" n),
    (
      λ n. ground (arith, three_digits "0" "5" "2" n),
      (
        λ n. ground (arith, three_digits "0" "5" "3" n),
        (
          λ n. ground (arith, three_digits "0" "5" "4" n),
          (
            λ n. ground (arith, three_digits "0" "5" "5" n),
            (
              λ n. ground (arith, three_digits "0" "5" "8" n),
              (
                λ n. ground (arith, three_digits "0" "5" "9" n),
                (
                  λ n. ground (arith, two_digits "0" "2" n),
                  (
                    λ n. ground (arith, two_digits "0" "3" n),
                    (
                      λ n. ground (arith, two_digits "0" "4" n),
                      (
                        λ n. ground (arith, two_digits "0" "8" n),
                        (λ n. ground (arith, two_digits "0" "9" n), tt),
                      ),
                    ),
                  ),
                ),
              ),
            ),
          ),
        ),
      ),
    ),
  ),
)

-- what is asked of a number with such a prefix
abbrev Validated : String → Type 0
Validated p =
    (n : String) → validate_phone_number p n ≡ (if n == "" then false else eqb (count (digits n)) 7)

prefixes-Validated : All Validated israel_phone_prefixes
unfolding validate_phone_number
prefixes-Validated = (
  λ n. refl,
  (
    λ n. refl,
    (
      λ n. refl,
      (
        λ n. refl,
        (
          λ n. refl,
          (
            λ n. refl,
            (
              λ n. refl,
              (λ n. refl, (λ n. refl, (λ n. refl, (λ n. refl, (λ n. refl, (λ n. refl, tt)))))),
            ),
          ),
        ),
      ),
    ),
  ),
)

pub any-All :
    (P : String → Type 0) (ps : List String) (s : String) → All P ps → includes ps s ≡ true → P s
any-All P [] s k h = ground (arith, h)
any-All P (p ∷ ps) s (x, k) h = elim (Bool-cases (p == s)) [
  | inl e ↦ subst P ((eq_iff p s).0 e) x
  | inr e ↦ any-All P ps s k (ground (arith, e, h))
]

parse_phone_lem : (phone : String) → parse_phone phone ≡ parse_cleaned (without_separators phone)
unfolding parse_phone
parse_phone_lem phone = elim (Bool-cases (phone == "")) [
  | inl e ↦
      subst (λ s. parse_phone s ≡ parse_cleaned (without_separators s))
        (sym ((eq_iff phone "").0 e)) refl
  | inr e ↦ ground (arith, e)
]

digits-every : (n : String) → every is_digit (codes n) ≡ true → digits n ≡ n
digits-every Prim.Native.String.[] h = refl
digits-every (Prim.Native.String.◌∷◌ c n) h = ground (arith, digits-every n, h)

seven :
    (n : String)
    → every is_digit (codes n) ≡ true
    → (if n == "" then false else eqb (count (digits n)) 7) ≡ eqb (count n) 7
seven n d = elim (Bool-cases (n == "")) [
  | inl e ↦
      subst (λ s. (if s == "" then false else eqb (count (digits s)) 7) ≡ eqb (count s) 7)
        (sym ((eq_iff n "").0 e)) refl
  | inr e ↦ ground (arith, e, ap count (digits-every n d))
]

-- With such a prefix, digits are valid exactly if there are seven.
pub validate_phone_number-prefix :
    (p n : String)
    → includes israel_phone_prefixes p ≡ true
    → every is_digit (codes n) ≡ true
    → validate_phone_number p n ≡ eqb (count n) 7
validate_phone_number-prefix p n h d =
    any-All Validated israel_phone_prefixes p prefixes-Validated h n ∙ seven n d

-- For each prefix of the list that the forms offer, each number of digits, and each text that is the
-- two in a row but for spaces and dashes: the text is parsed into just that prefix and number, and
-- the two are valid exactly if the number has seven digits.
pub parse_phone-join :
    (p n phone : String)
    → includes israel_phone_prefixes p ≡ true
    → every is_digit (codes n) ≡ true
    → without_separators phone ≡ join p n
    → (parse_phone phone ≡ record { prefix = p; number = n })
      × (validate_phone_number p n ≡ eqb (count n) 7)
parse_phone-join p n phone h d k = (
  parse_phone_lem phone
      ∙ ap parse_cleaned k
      ∙ any-All Parsed israel_phone_prefixes p prefixes-Parsed h n,
  validate_phone_number-prefix p n h d,
)
