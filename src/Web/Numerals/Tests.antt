-- ===== src/Web/Numerals/Tests.antt =====
-- Some texts that are read as numbers.
use parking_gate_remote.Common.{◌≡◌, refl, pos, negsuc, none, some}
use parking_gate_remote.Web.Numerals.{decimal, scan, number_text, parse_int}

texts : (number_text (pos 1070) ≡ "1070") × (number_text (negsuc 0) ≡ "-1")
unfolding decimal
texts = (refl, refl)

numbers : (parse_int " 12a3" ≡ some (pos 12)) × (parse_int "-07" ≡ some (negsuc 6))
unfolding parse_int scan
numbers = (refl, refl)

no_numbers : (parse_int "" ≡ none) × (parse_int "- 1" ≡ none) × (parse_int "a1" ≡ none)
unfolding parse_int
no_numbers = (refl, refl, refl)
