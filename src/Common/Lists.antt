-- ===== src/Common/Lists.antt =====
-- Lists: lengths over the native numbers, and the searches that collections are described by.
use Prim.Native.Nat.{ℕ, zero, suc, ◌+◌, ◌≤◌}
use mathlib.Core.Path.{◌≡◌, refl, sym, ap, ◌∙◌}
use mathlib.Core.Logic.{inl, inr}
use mathlib.Core.Bool.{Bool, true, false, ◌||◌, ◌&&◌, Bool-set}
use mathlib.Core.List.{
  List, [], ◌∷◌, ◌++◌, Perm, foldr, Mem, Mem-prop, mem-cons_self, mem-cons_of_mem,
  eq-or-mem_of_mem-cons, not-mem-nil,
}
use mathlib.Core.Logic.Or
use mathlib.Core.List.Perm
use mathlib.Core.Option.{Option, none, some}
use native.Mathlib.Nat.{ℕ_set}
use native.Mathlib.Omega.{arith}
use parking_gate_remote.Common.Tests.{if◌then◌else◌, Bool-cases}

module _ {ℓ} {A : Type ℓ} where
  abbrev pub length : List A → ℕ
  length [] = 0
  length (x ∷ xs) = suc (length xs)

  abbrev pub any : (A → Bool) → List A → Bool
  any p [] = false
  any p (x ∷ xs) = p x || any p xs

  abbrev pub every : (A → Bool) → List A → Bool
  every p [] = true
  every p (x ∷ xs) = p x && every p xs

  -- The elements that pass, in order.
  abbrev pub select : (A → Bool) → List A → List A
  select p [] = []
  select p (x ∷ xs) = let rest = select p xs in if p x then x ∷ rest else rest

  -- The elements that do not pass, in order.
  abbrev pub reject : (A → Bool) → List A → List A
  reject p [] = []
  reject p (x ∷ xs) = let rest = reject p xs in if p x then rest else x ∷ rest

  abbrev pub first : (A → Bool) → List A → Option A
  first p [] = none
  first p (x ∷ xs) = if p x then some x else first p xs

  -- The first element that passes is replaced; the others stay.
  abbrev pub update_first : (A → Bool) → (A → A) → List A → List A
  update_first p f [] = []
  update_first p f (x ∷ xs) = if p x then f x ∷ xs else x ∷ update_first p f xs

  -- The first element that passes is removed.
  abbrev pub remove_first : (A → Bool) → List A → List A
  remove_first p [] = []
  remove_first p (x ∷ xs) = if p x then xs else x ∷ remove_first p xs

  abbrev pub take : ℕ → List A → List A
  take zero xs = []
  take (suc n) [] = []
  take (suc n) (x ∷ xs) = x ∷ take n xs

  abbrev pub drop : ℕ → List A → List A
  drop zero xs = xs
  drop (suc n) [] = []
  drop (suc n) (x ∷ xs) = drop n xs

  pub length-append : (xs ys : List A) → length (xs ++ ys) ≡ length xs + length ys
  length-append [] ys = omega arith
  length-append (x ∷ xs) ys = omega (arith, length-append xs ys)

  pub any-append : (p : A → Bool) (xs ys : List A) → any p (xs ++ ys) ≡ (any p xs || any p ys)
  any-append p [] ys = refl
  any-append p (x ∷ xs) ys = ground (arith, any-append p xs ys)

  pub any-first : (p : A → Bool) (xs : List A) → any p xs ≡ false → first p xs ≡ none
  any-first p [] h = refl
  any-first p (x ∷ xs) h = ground (arith, any-first p xs)

  pub first-passes : (p : A → Bool) (xs : List A) (x : A) → first p xs ≡ some x → p x ≡ true
  first-passes p [] x h = ground arith
  first-passes p (y ∷ xs) x h = elim (Bool-cases (p y)) [
    | inl t ↦ ground (arith, t, h)
    | inr f ↦ ground (arith, f, h, first-passes p xs x)
  ]

  pub every-first :
      (p q : A → Bool) (xs : List A) (x : A) → first p xs ≡ some x → every q xs ≡ true → q x ≡ true
  every-first p q [] x h k = ground arith
  every-first p q (y ∷ xs) x h k = elim (Bool-cases (p y)) [
    | inl t ↦ ground (arith, t, h, k)
    | inr f ↦ ground (arith, f, h, k, every-first p q xs x)
  ]

  pub first-update_first :
      (p : A → Bool) (f : A → A) (xs : List A) (x : A)
      → first p xs ≡ some x
      → p (f x) ≡ true
      → first p (update_first p f xs) ≡ some (f x)
  first-update_first p f [] x h k = ground arith
  first-update_first p f (y ∷ xs) x h k = elim (Bool-cases (p y)) [
    | inl t ↦ ground (arith, t, h, k)
    | inr n ↦ ground (arith, n, h, k, first-update_first p f xs x)
  ]

  pub every-update_first :
      (p q : A → Bool) (f : A → A) (xs : List A) (x : A)
      → first p xs ≡ some x
      → every q xs ≡ true
      → q (f x) ≡ true
      → every q (update_first p f xs) ≡ true
  every-update_first p q f [] x h k l = ground arith
  every-update_first p q f (y ∷ xs) x h k l = elim (Bool-cases (p y)) [
    | inl t ↦ ground (arith, t, h, k, l)
    | inr n ↦ ground (arith, n, h, k, l, every-update_first p q f xs x)
  ]

  pub select-reject : (p : A → Bool) (xs : List A) → select p (reject p xs) ≡ []
  select-reject p [] = refl
  select-reject p (x ∷ xs) = ground (arith, select-reject p xs)

  pub select-append :
      (p : A → Bool) (xs ys : List A) → select p (xs ++ ys) ≡ select p xs ++ select p ys
  select-append p [] ys = refl
  select-append p (x ∷ xs) ys = ground (arith, select-append p xs ys)

  pub length-take-le : (n : ℕ) (xs : List A) → length (take n xs) ≤ n
  length-take-le zero xs = omega arith
  length-take-le (suc n) [] = omega arith
  length-take-le (suc n) (x ∷ xs) = omega (arith, length-take-le n xs)

  pub any-select : (p q : A → Bool) (xs : List A) → any q (select p xs) ≡ any (λ x. p x && q x) xs
  any-select p q [] = refl
  any-select p q (x ∷ xs) = ground (arith, any-select p q xs)

  mem-kept :
      (b : Bool) (x y : A) (ys xs : List A)
      → (Mem x ys → Mem x xs)
      → Mem x (if b then y ∷ ys else ys)
      → Mem x (y ∷ xs)
  mem-kept true x y ys xs within m =
      Or.elim Mem-prop (eq-or-mem_of_mem-cons m) (λ e. rw e mem-cons_self)
        (λ later. mem-cons_of_mem y (within later))
  mem-kept false x y ys xs within m = mem-cons_of_mem y (within m)

  -- What passes is an element of the whole.
  pub mem-select : (p : A → Bool) (xs : List A) (x : A) → Mem x (select p xs) → Mem x xs
  mem-select p [] x m = m
  mem-select p (y ∷ xs) x m = mem-kept (p y) x y (select p xs) xs (mem-select p xs x) m

  pub any_of_mem : (p : A → Bool) (xs : List A) (x : A) → Mem x xs → p x ≡ true → any p xs ≡ true
  any_of_mem p [] x m h = absurd (not-mem-nil m)
  any_of_mem p (y ∷ xs) x m h =
      Or.elim (Bool-set (any p (y ∷ xs)) true) (eq-or-mem_of_mem-cons m)
        (λ e. ground (arith, ap p e, h)) (λ later. ground (arith, any_of_mem p xs x later h))

  any-foldr : (p : A → Bool) (xs : List A) → any p xs ≡ foldr (λ x b. p x || b) false xs
  any-foldr p [] = refl
  any-foldr p (x ∷ xs) = ground (arith, any-foldr p xs)

  pub any-Perm : (p : A → Bool) (xs ys : List A) → Perm xs ys → any p xs ≡ any p ys
  any-Perm p xs ys h =
      any-foldr p xs
      ∙ Perm.foldr-eq Bool-set (λ x b. p x || b) (λ x y b. ground arith) h false
      ∙ sym (any-foldr p ys)

  length-foldr : (xs : List A) → length xs ≡ foldr (λ x n. suc n) 0 xs
  length-foldr [] = refl
  length-foldr (x ∷ xs) = ground (arith, length-foldr xs)

  pub length-Perm : (xs ys : List A) → Perm xs ys → length xs ≡ length ys
  length-Perm xs ys h =
      length-foldr xs
      ∙ Perm.foldr-eq ℕ_set (λ x n. suc n) (λ x y n. refl) h 0
      ∙ sym (length-foldr ys)

  pub reject-of_none : (p : A → Bool) (xs : List A) → length (select p xs) ≤ 0 → reject p xs ≡ xs
  reject-of_none p [] h = refl
  reject-of_none p (x ∷ xs) h = elim (Bool-cases (p x)) [
    | inl y ↦ ground (arith, y, h)
    | inr n ↦ ground (arith, n, h, reject-of_none p xs)
  ]

  pub remove_first-reject :
      (p : A → Bool) (xs : List A) → length (select p xs) ≤ 1 → remove_first p xs ≡ reject p xs
  remove_first-reject p [] h = refl
  remove_first-reject p (x ∷ xs) h = elim (Bool-cases (p x)) [
    | inl y ↦ ground (arith, y, h, reject-of_none p xs)
    | inr n ↦ ground (arith, n, h, remove_first-reject p xs)
  ]

module _ {ℓ κ} {A : Type ℓ} (P : A → Type κ) where
  abbrev pub All : List A → Type κ
  All [] = Unit
  All (x ∷ xs) = P x × All xs

  pub All-append : (xs ys : List A) → All xs → All ys → All (xs ++ ys)
  All-append [] ys _ k = k
  All-append (x ∷ xs) ys (p, h) k = (p, All-append xs ys h k)
