-- ===== src/Web/Trim.antt =====
-- `text.trim()` of JavaScript.
use Prim.Native.Char.{Char, code}
use parking_gate_remote.Common.{
  String, ◌≡◌, refl, ap, ◌∙◌, inl, inr, Bool, ◌==◌, ◌&&◌, if◌then◌else◌, Bool-cases, arith,
}
use parking_gate_remote.Web.Phone.{is_space}
use parking_gate_remote.Web.Numerals.{skip_spaces}

-- A space, as a test that the proofs need not open.
unfoldable pub blank : Char → Bool
blank c = is_space (code c)

-- The text without the spaces at its end.
unfoldable pub trim_end : String → String
trim_end String.[] = String.[]
trim_end (String.◌∷◌ c s) =
    let rest = trim_end s in if blank c && rest == "" then String.[] else String.◌∷◌ c rest

-- `text.trim()`
unfoldable pub trim : String → String
trim s = trim_end (skip_spaces s)

trim_end_twice : (s : String) → trim_end (trim_end s) ≡ trim_end s
unfolding trim_end
trim_end_twice String.[] = refl
trim_end_twice (String.◌∷◌ c s) = elim (Bool-cases (blank c && trim_end s == "")) [
  | inl y ↦ rw y
  | inr n ↦ simp (n, trim_end_twice s)
]

skip-trim : (s : String) → skip_spaces (trim_end (skip_spaces s)) ≡ trim_end (skip_spaces s)
unfolding trim_end blank
skip-trim String.[] = refl
skip-trim (String.◌∷◌ c s) = elim (Bool-cases (is_space (code c))) [
  | inl y ↦ ground (arith, y, skip-trim s)
  | inr n ↦ ground (arith, n)
]

-- A text that is trimmed has nothing to be trimmed off.
pub trim_twice : (s : String) → trim (trim s) ≡ trim s
unfolding trim
trim_twice s = ap trim_end (skip-trim s) ∙ trim_end_twice (skip_spaces s)

padded : trim " a b\n" ≡ "a b"
unfolding trim trim_end blank
padded = refl
