-- ===== src/Common/Assoc.antt =====
-- Maps with keys of a type with a Boolean equality, as association lists.
use Prim.Native.Nat.{ℕ}
use Prim.Native.String.{String}
use mathlib.Core.Path.{◌≡◌, refl, subst}
use mathlib.Core.Logic.{◌↔◌, inl, inr}
use mathlib.Core.Bool.{Bool, true}
use mathlib.Core.List.{List, [], ◌∷◌}
use mathlib.Core.Option.{Option, none, some}
use native.Mathlib.Omega.{arith}
use text.Mathlib.Text.{◌==◌}
use text.Mathlib.TextEquality.{eq_iff}
use parking_gate_remote.Common.Tests.{Bool-cases, eqb, if◌then◌else◌}

pub record Eq (K : Type 0) : Type 0 where
  pub same : K → K → Bool
  pub same_iff : (j k : K) → (same j k ≡ true) ↔ (j ≡ k)

pub eqb_iff : (a b : ℕ) → (eqb a b ≡ true) ↔ (a ≡ b)
eqb_iff a b = ground arith

instance abbrev pub string_eq : Eq String
string_eq = record { same = ◌==◌; same_iff = eq_iff }

instance abbrev pub number_eq : Eq ℕ
number_eq = record { same = eqb; same_iff = eqb_iff }

module _ {ℓ} {K : Type 0} {V : Type ℓ} ⦃e : Eq K⦄ where
  unfoldable pub lookup : K → List (K × V) → Option V
  lookup k [] = none
  lookup k ((j, v) ∷ m) = if e.same j k then some v else lookup k m

  -- As `Map.set` does: a present key keeps its place.
  unfoldable pub insert : K → V → List (K × V) → List (K × V)
  insert k v [] = (k, v) ∷ []
  insert k v ((j, w) ∷ m) = if e.same j k then (k, v) ∷ m else (j, w) ∷ insert k v m

  -- As `Map.delete` does.
  unfoldable pub delete : K → List (K × V) → List (K × V)
  delete k [] = []
  delete k ((j, w) ∷ m) = let rest = delete k m in if e.same j k then rest else (j, w) ∷ rest

  pub lookup-insert :
      (k j : K) (v : V) (m : List (K × V))
      → lookup j (insert k v m) ≡ (if e.same k j then some v else lookup j m)
  unfolding lookup insert
  lookup-insert k j v [] = refl
  lookup-insert k j v ((i, w) ∷ m) =
      ground (arith, e.same_iff k j, e.same_iff i k, e.same_iff i j, lookup-insert k j v m)

  pub lookup-delete :
      (k j : K) (m : List (K × V))
      → lookup j (delete k m) ≡ (if e.same k j then none else lookup j m)
  unfolding lookup delete
  lookup-delete k j [] = ground arith
  lookup-delete k j ((i, w) ∷ m) =
      ground (arith, e.same_iff k j, e.same_iff i k, e.same_iff i j, lookup-delete k j m)

module _ {V : Type 0} (P : V → Type 0) where
  -- What holds of every value that a map holds, shadowed or not.
  abbrev pub Values : {K : Type 0} → List (K × V) → Type 0
  Values [] = Unit
  Values ((_, v) ∷ m) = P v × Values m

  pub Values-insert :
      {K : Type 0} ⦃e : Eq K⦄ (k : K) (v : V) (m : List (K × V))
      → P v
      → Values m
      → Values (insert k v m)
  unfolding insert
  Values-insert k v [] h ms = (h, tt)
  Values-insert ⦃e⦄ k v ((j, w) ∷ m) h ms = ground (arith, Values-insert ⦃e = e⦄ k v m h ms.1)

  pub Values-delete :
      {K : Type 0} ⦃e : Eq K⦄ (k : K) (m : List (K × V)) → Values m → Values (delete k m)
  unfolding delete
  Values-delete k [] ms = tt
  Values-delete ⦃e⦄ k ((j, w) ∷ m) ms = ground (arith, Values-delete ⦃e = e⦄ k m ms.1)

  pub Values-lookup :
      {K : Type 0} ⦃e : Eq K⦄ (k : K) (m : List (K × V)) (v : V)
      → Values m
      → lookup k m ≡ some v
      → P v
  unfolding lookup
  Values-lookup k [] v ms h = cc
  Values-lookup ⦃e⦄ k ((j, w) ∷ m) v ms h = elim (Bool-cases (e.same j k)) [
    | inl hit ↦ subst P (ground arith) ms.0
    | inr miss ↦ Values-lookup ⦃e = e⦄ k m v ms.1 (ground arith)
  ]
