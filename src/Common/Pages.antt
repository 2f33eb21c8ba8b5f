-- ===== src/Common/Pages.antt =====
-- Cutting a list into pages, as `skip` and `limit` do, and putting the pages together again.
use Prim.Native.Nat.{ℕ, zero, suc, ◌+◌, ◌-◌, ◌*◌, ◌/◌, ◌≤◌}
use mathlib.Core.Path.{◌≡◌, refl, sym, ap, ◌∙◌}
use mathlib.Core.List.{List, [], ◌∷◌, ◌++◌, map, map-append}
use native.Mathlib.Omega.{arith}
use parking_gate_remote.Common.Lists.{length, take, drop, length-take-le}

suc-add : (a b : ℕ) → suc a + b ≡ suc (a + b)
suc-add a b = omega arith

module _ {ℓ} {A : Type ℓ} where
  -- `limit(n)`; zero is no limit.
  abbrev pub limited : ℕ → List A → List A
  limited zero xs = xs
  limited (suc n) xs = take (suc n) xs

  take-nil : (n : ℕ) → take {A = A} n [] ≡ []
  take-nil zero = refl
  take-nil (suc n) = refl

  drop-nil : (n : ℕ) → drop {A = A} n [] ≡ []
  drop-nil zero = refl
  drop-nil (suc n) = refl

  take-add : (a b : ℕ) (xs : List A) → take (a + b) xs ≡ take a xs ++ take b (drop a xs)
  take-add zero b xs = ground arith
  take-add (suc a) b [] = ground (arith, take-nil (suc a + b), take-nil b)
  take-add (suc a) b (x ∷ xs) =
      ap (λ n. take n (x ∷ xs)) (suc-add a b) ∙ ap (λ ys. x ∷ ys) (take-add a b xs)

  drop-drop : (a b : ℕ) (xs : List A) → drop b (drop a xs) ≡ drop (a + b) xs
  drop-drop zero b xs = ground arith
  drop-drop (suc a) b [] = ground (arith, drop-nil (suc a + b), drop-nil b)
  drop-drop (suc a) b (x ∷ xs) = drop-drop a b xs ∙ sym (ap (λ n. drop n (x ∷ xs)) (suc-add a b))

  pub take_all : (n : ℕ) (xs : List A) → length xs ≤ n → take n xs ≡ xs
  take_all zero [] h = refl
  take_all zero (x ∷ xs) h = ground arith
  take_all (suc n) [] h = refl
  take_all (suc n) (x ∷ xs) h = ground (arith, take_all n xs)

  -- The pages from one page number on, one after the other.
  abbrev pub pages : ℕ → ℕ → ℕ → List A → List A
  pages limit zero i xs = []
  pages limit (suc n) i xs = take limit (drop (i * limit) xs) ++ pages limit n (i + 1) xs

  pages-take :
      (limit n i : ℕ) (xs : List A) → pages limit n i xs ≡ take (n * limit) (drop (i * limit) xs)
  pages-take limit zero i xs = ground arith
  pages-take limit (suc n) i xs =
      ap (λ ys. take limit (drop (i * limit) xs) ++ ys) (pages-take limit n (i + 1) xs)
      ∙ ap (λ m. take limit (drop (i * limit) xs) ++ take (n * limit) (drop m xs)) next
      ∙ ap (λ ys. take limit (drop (i * limit) xs) ++ take (n * limit) ys)
          (sym (drop-drop (i * limit) limit xs))
      ∙ sym (take-add limit (n * limit) (drop (i * limit) xs))
      ∙ ap (λ m. take m (drop (i * limit) xs)) more
    where
      next : (i + 1) * limit ≡ i * limit + limit
      next = grind arith

      more : limit + n * limit ≡ suc n * limit
      more = grind arith

  -- As many pages as the total needs hold every element, in order.
  pub pages_cover : (limit n : ℕ) (xs : List A) → length xs ≤ n * limit → pages limit n 0 xs ≡ xs
  pages_cover limit n xs h =
      pages-take limit n 0 xs
      ∙ ap (λ m. take (n * limit) (drop m xs)) {y = 0} (omega arith)
      ∙ take_all (n * limit) xs h

-- The page with a number, counted from one.
abbrev pub page_of {ℓ} : {A : Type ℓ} → ℕ → ℕ → List A → List A
page_of limit page xs = limited limit (drop ((page - 1) * limit) xs)

-- What is made of the elements of `n` pages from a page on, one page after the other.
abbrev pub map_pages {ℓ κ} : {A : Type ℓ} {B : Type κ} → (A → B) → ℕ → ℕ → ℕ → List A → List B
map_pages f limit zero page xs = []
map_pages f limit (suc n) page xs =
    map f (page_of limit page xs) ++ map_pages f limit n (page + 1) xs

pub limited-take {ℓ} : {A : Type ℓ} (n : ℕ) (xs : List A) → 1 ≤ n → limited n xs ≡ take n xs
limited-take zero xs h = ground arith
limited-take (suc n) xs h = refl

pub length-page_of {ℓ} :
    {A : Type ℓ} (limit page : ℕ) (xs : List A) → 1 ≤ limit → length (page_of limit page xs) ≤ limit
length-page_of limit page xs h = ground (
  arith,
  limited-take limit (drop ((page - 1) * limit) xs),
  length-take-le limit (drop ((page - 1) * limit) xs),
)

cong-append {ℓ} : {A : Type ℓ} {a b c d : List A} → a ≡ b → c ≡ d → a ++ c ≡ b ++ d
cong-append p q = cc

module _ {ℓ κ} {A : Type ℓ} {B : Type κ} (f : A → B) where
  map_pages-pages :
      (limit n i : ℕ) (xs : List A)
      → 1 ≤ limit
      → map_pages f limit n (i + 1) xs ≡ map f (pages limit n i xs)
  map_pages-pages limit zero i xs h = refl
  map_pages-pages limit (suc n) i xs h =
      cong-append
        (ap (λ j. map f (limited limit (drop (j * limit) xs))) {y = i} (omega arith)
          ∙ ap (map f) (limited-take limit (drop (i * limit) xs) h))
        (map_pages-pages limit n (i + 1) xs h)
      ∙ sym (map-append f (take limit (drop (i * limit) xs)) (pages limit n (i + 1) xs))

  -- As many pages as the total needs hold every element, in order.
  pub map_pages_cover :
      (limit n : ℕ) (xs : List A)
      → 1 ≤ limit
      → length xs ≤ n * limit
      → map_pages f limit n 1 xs ≡ map f xs
  map_pages_cover limit n xs h k =
      map_pages-pages limit n 0 xs h ∙ ap (map f) (pages_cover limit n xs k)

-- `Math.ceil(total / limit)`
abbrev pub page_count : ℕ → ℕ → ℕ
page_count total limit = (total + (limit - 1)) / limit

pub page_count_enough : (total limit : ℕ) → 1 ≤ limit → total ≤ page_count total limit * limit
page_count_enough total limit h = grind arith

pub page_count_tight :
    (total limit : ℕ) → 1 ≤ limit → page_count total limit * limit ≤ total + (limit - 1)
page_count_tight total limit h = grind arith
