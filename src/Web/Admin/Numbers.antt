-- ===== src/Web/Admin/Numbers.antt =====
-- The numbers that a pager shows: getPageNumbers of frontend/src/app/admin/AdminPageContent.tsx.
mod Tests
use parking_gate_remote.Common.{
  ℕ, zero, suc, ◌+◌, ◌-◌, ◌≤◌, ◌≡◌, refl, inl, inr, Bool, true, false, List, [], ◌∷◌, ◌++◌, ◌&&◌,
  ◌||◌, if◌then◌else◌, length, any, leb, ltb, eqb, arith, Bool-cases, length-append, any-append,
  if-holds, ◌≤◌,
}

pub data Button : Type 0 where
  page : ℕ → Button
  ellipsis : Button

-- The buttons of `n` pages from one on.
abbrev pub run_of : ℕ → ℕ → List Button
run_of zero i = []
run_of (suc n) i = page i ∷ run_of n (i + 1)

abbrev pub near_start : ℕ → List Button
near_start total = run_of 5 1 ++ ellipsis ∷ page total ∷ []

abbrev pub near_end : ℕ → List Button
near_end total = page 1 ∷ ellipsis ∷ run_of 5 (total - 4)

abbrev pub in_the_middle : ℕ → ℕ → List Button
in_the_middle current total =
    page 1
    ∷ ellipsis
    ∷ page (current - 1)
    ∷ page current
    ∷ page (current + 1)
    ∷ ellipsis
    ∷ page total
    ∷ []

pub get_page_numbers : ℕ → ℕ → List Button
get_page_numbers current total =
    if leb total 7
    then run_of total 1
    else if leb current 4
    then near_start total
    else if leb (total - 3) current
    then near_end total
    else in_the_middle current total

-- Whether the buttons go on from a page up to the last: each page is the next, or stands behind an
-- ellipsis that leaves out a page at least, and no ellipsis is at the end.
abbrev pub goes_on : ℕ → ℕ → List Button → Bool
goes_on total last [] = eqb last total
goes_on total last (page i ∷ bs) = eqb i (last + 1) && goes_on total i bs
goes_on total last (ellipsis ∷ []) = false
goes_on total last (ellipsis ∷ ellipsis ∷ bs) = false
goes_on total last (ellipsis ∷ page i ∷ bs) = ltb (last + 1) i && goes_on total i bs

abbrev pub is_page : ℕ → Button → Bool
is_page i (page j) = eqb i j
is_page i ellipsis = false

length-run_of : (n i : ℕ) → length (run_of n i) ≡ n
length-run_of zero i = refl
length-run_of (suc n) i = omega (arith, length-run_of n (i + 1))

goes_on-run_of : (n i total : ℕ) → i + n ≡ total → goes_on total i (run_of n (i + 1)) ≡ true
goes_on-run_of zero i total h = ground arith
goes_on-run_of (suc n) i total h = ground (arith, goes_on-run_of n (i + 1) total)

any-run_of : (n i j : ℕ) → i ≤ j → suc j ≤ i + n → any (is_page j) (run_of n i) ≡ true
any-run_of zero i j h k = absurd (omega arith)
any-run_of (suc n) i j h k = ground (arith, any-run_of n (i + 1) j)

-- What a list of buttons has to be.
abbrev pub IsPager : ℕ → ℕ → List Button → Type 0
IsPager current total bs =
    (length bs ≤ 7) × (goes_on total 0 bs ≡ true) × (any (is_page current) bs ≡ true)

-- For a page that there is: the buttons are seven at most; read from left to right they are the pages
-- from the first to the last, each the next one or behind an ellipsis for at least one that is left
-- out; and the present page is among them.
pub get_page_numbers_lem :
    (current total : ℕ)
    → 1 ≤ current
    → current ≤ total
    → IsPager current total (get_page_numbers current total)
unfolding get_page_numbers
get_page_numbers_lem current total h k = elim (Bool-cases (leb total 7)) [
  | inl few ↦
      ground
        (arith, length-run_of total 1, goes_on-run_of total 0 total, any-run_of total 1 current)
  | inr many ↦ elim (Bool-cases (leb current 4)) [
    | inl early ↦ ground (arith, many, early, any-run_of 5 1 current)
    | inr _ ↦ elim (Bool-cases (leb (total - 3) current)) [
      | inl late ↦
          ground (
            arith,
            many,
            late,
            goes_on-run_of 5 (total - 5) total,
            any-run_of 5 (total - 4) current,
          )
      | inr middle ↦ ground (arith, many, middle)
    ]
  ]
]
