-- ===== src/Common/Sorted.antt =====
-- Lists in order: two that hold the same elements are the same, where no two elements tie.
use mathlib.Core.Path.{◌≡◌, sym, subst}
use mathlib.Core.Bool.{Bool, false, Bool-set}
use mathlib.Core.List.{
  List, [], ◌∷◌, Perm, Mem, Pairwise, Pairwise-cons, mem-cons_self, mem-cons_of_mem,
  eq-or-mem_of_mem-cons,
}
use mathlib.Core.List.Perm
use mathlib.Core.Logic.Or

module _ {A : Type 0} (before : A → A → Bool) where
  -- No later element comes before an earlier one.
  abbrev pub InOrder : List A → Type 0
  InOrder xs = Pairwise (λ x y. before y x ≡ false) xs

  -- Elements of which none comes before the other are the same.
  abbrev pub Untied : List A → Type 0
  Untied xs = (x y : A) → Mem x xs → Mem y xs → before x y ≡ false → before y x ≡ false → x ≡ y

  module _ (irreflexive : (x : A) → before x x ≡ false) where
    not-before_head :
        (x y : A) (xs : List A) → InOrder (x ∷ xs) → Mem y (x ∷ xs) → before y x ≡ false
    not-before_head x y xs h m =
        Or.elim (Bool-set (before y x) false) (eq-or-mem_of_mem-cons m) (λ e. rw e (irreflexive x))
          (λ later. (Pairwise-cons.0 h).0 y later)

    pub InOrder-unique :
        (xs ys : List A) → Perm xs ys → InOrder xs → InOrder ys → Untied xs → xs ≡ ys
    InOrder-unique [] ys p h k u = Perm.nil-eq p
    InOrder-unique (x ∷ xs) [] p h k u = Perm.eq-nil p
    InOrder-unique (x ∷ xs) (y ∷ ys) p h k u =
        let x_in = (Perm.mem_iff p).0 mem-cons_self in
        let y_in = (Perm.mem_iff p).1 mem-cons_self in
        let same =
          u x y mem-cons_self y_in (not-before_head y x ys k x_in)
            (not-before_head x y xs h y_in) in
        let rest = Perm.cons_inv (subst (λ z. Perm (x ∷ xs) (z ∷ ys)) (sym same) p) in
        let tails =
          InOrder-unique xs ys rest (Pairwise-cons.0 h).1 (Pairwise-cons.0 k).1
            λ a b m n. u a b (mem-cons_of_mem x m) (mem-cons_of_mem x n) in
        cc
