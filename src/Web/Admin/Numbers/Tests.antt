-- ===== src/Web/Admin/Numbers/Tests.antt =====
-- The buttons of ten and of twenty pages (frontend/src/app/admin/AdminPageContent.tsx).
use parking_gate_remote.Common.{◌≡◌, ◌≤◌, refl, true, [], ◌∷◌, any, length, arith}
use parking_gate_remote.Web.Admin.Numbers.{
  page, ellipsis, get_page_numbers, goes_on, is_page, get_page_numbers_lem,
}

ten : get_page_numbers 7 10 ≡ page 1 ∷ ellipsis ∷ page 6 ∷ page 7 ∷ page 8 ∷ page 9 ∷ page 10 ∷ []
unfolding get_page_numbers
ten = refl

get_page_numbers_lem_example :
    (length (get_page_numbers 9 20) ≤ 7)
    × (goes_on 20 0 (get_page_numbers 9 20) ≡ true)
    × (any (is_page 9) (get_page_numbers 9 20) ≡ true)
get_page_numbers_lem_example = get_page_numbers_lem 9 20 (omega arith) (omega arith)
