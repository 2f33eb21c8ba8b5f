-- ===== src/Auth/Header.antt =====
-- The token in the header `Authorization`: extractJwtFromRequest of
-- backend/src/auth/jwt.strategy.ts and the route `me` of backend/src/auth/auth.controller.ts. The
-- header is `none` if it is missing; of letters, only those of ASCII are made lower case.
mod Tests
use Prim.Native.Char.{Char, code}
use parking_gate_remote.Common.{
  ℕ, ◌+◌, String, ◌≡◌, refl, ap, ◌∙◌, sym, inl, inr, Bool, true, false, not, Option, none, some,
  List, [], ◌∷◌, ◌==◌, ◌&&◌, ◌||◌, if◌then◌else◌, leb, eqb, every, arith, Bool-cases, eq_iff, subst,
}
use parking_gate_remote.Common.Assoc.{eqb_iff}
use parking_gate_remote.Common.Text.{codes, starts_with}
use parking_gate_remote.Web.Phone.{is_space, rest_of}
use parking_gate_remote.Web.Phone.Parts.{join}
use parking_gate_remote.Web.Numerals.{skip_spaces}
use parking_gate_remote.Web.Trim.{trim, trim_end, blank}

-- `toLowerCase`, on the codes
abbrev lower : ℕ → ℕ
lower c = if leb b'A' c && leb c b'Z' then c + 32 else c

abbrev pub lower_case : List ℕ → List ℕ
lower_case [] = []
lower_case (c ∷ s) = lower c ∷ lower_case s

abbrev pub same_codes : List ℕ → List ℕ → Bool
same_codes [] [] = true
same_codes [] (d ∷ t) = false
same_codes (c ∷ s) [] = false
same_codes (c ∷ s) (d ∷ t) = eqb c d && same_codes s t

-- The first two parts of `split(' ')`; a second part that is missing is empty.
abbrev pub before_space : String → String
before_space String.[] = String.[]
before_space (String.◌∷◌ c s) =
    if eqb (code c) b' ' then String.[] else String.◌∷◌ c (before_space s)

abbrev pub after_space : String → String
after_space String.[] = String.[]
after_space (String.◌∷◌ c s) = if eqb (code c) b' ' then s else after_space s

-- `extractJwtFromRequest`; an empty header counts as missing.
unfoldable pub extract_jwt : Option String → Option String
extract_jwt none = none
extract_jwt (some h) =
    let token = before_space (after_space h) in
    if same_codes (lower_case (codes (before_space h))) (codes "bearer") && not (token == "")
    then some token
    else none

-- the token that the route `me` hands on
unfoldable pub token_of_header : Option String → Option String
token_of_header none = none
token_of_header (some String.[]) = none
token_of_header (some (String.◌∷◌ c s)) =
    let h = String.◌∷◌ c s in
    if starts_with (codes "bearer ") (lower_case (codes h))
    then some (trim (rest_of 7 h))
    else some (trim h)

-- A text without spaces of any kind.
abbrev pub is_compact : String → Bool
is_compact s = every (λ c. not (is_space c)) (codes s)

both : (a b : Bool) → (a && b) ≡ true → (a ≡ true) × (b ≡ true)
both true b h = (refl, h)
both false b h = ground (arith, h)

no_blank : (c : ℕ) → not (is_space c) ≡ true → eqb c b' ' ≡ false
no_blank c h = elim (Bool-cases (eqb c b' ')) [
  | inl y ↦
      let here : not (is_space b' ') ≡ true =
        subst (λ d. not (is_space d) ≡ true) ((eqb_iff c b' ').0 y) h in
      ground (arith, here)
  | inr n ↦ n
]

before_space-compact : (s : String) → is_compact s ≡ true → before_space s ≡ s
before_space-compact String.[] h = refl
before_space-compact (String.◌∷◌ c s) h =
    let (first, rest) = both (not (is_space (code c))) (is_compact s) h in
    rw (no_blank (code c) first) (ap (String.◌∷◌ c) (before_space-compact s rest))

trim_end-compact : (s : String) → is_compact s ≡ true → trim_end s ≡ s
unfolding trim_end blank
trim_end-compact String.[] h = refl
trim_end-compact (String.◌∷◌ c s) h = ground (arith, h, trim_end-compact s)

skip_spaces-compact : (s : String) → is_compact s ≡ true → skip_spaces s ≡ s
skip_spaces-compact String.[] h = refl
skip_spaces-compact (String.◌∷◌ c s) h = ground (arith, h)

trim-compact : (s : String) → is_compact s ≡ true → trim s ≡ s
unfolding trim
trim-compact s h = ap trim_end (skip_spaces-compact s h) ∙ trim_end-compact s h

-- A token that is not empty and has no spaces, sent behind `Bearer` and a space, is the token that
-- the guard reads and the one that the route `me` reads.
pub extract_jwt-bearer :
    (t : String)
    → is_compact t ≡ true
    → t == "" ≡ false
    → (extract_jwt (some (join "Bearer " t)) ≡ some t)
      × (token_of_header (some (join "Bearer " t)) ≡ some t)
unfolding extract_jwt token_of_header
extract_jwt-bearer t h k = (rw (before_space-compact t h, k) refl, ap some (trim-compact t h))
