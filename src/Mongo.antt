-- ===== src/Mongo.antt =====
-- What the services use of MongoDB through mongoose: the calls of a collection's model, as an
-- interface. A collection is the list of its documents in natural order, and a filter is a test.
-- The laws are the documented behaviour of the calls while the server answers.
mod Reference
pub mod Lists
pub use Reference.{Created, created, duplicate_key, failed, Falling}
use parking_gate_remote.Common.{
  ℕ, String, ◌≡◌, Bool, true, false, Option, none, some, List, [], ◌∷◌, ◌++◌, ◌==◌, any, select,
  reject, first, update_first, remove_first,
}
use parking_gate_remote.Common.Http.{Thrown}
use mathlib.Core.List.{Perm}

pub record Mongo : Type 1 where
  -- `findOne(p)`: the first document that passes.
  pub find_one : (D : Type 0) → (D → Bool) → List D → Option D
  -- `find(p)`
  pub find : (D : Type 0) → (D → Bool) → List D → List D
  -- `find(p).sort({ rank: -1 })`
  pub find_sorted : (D : Type 0) → (D → Bool) → (D → ℕ) → List D → List D
  -- `findOneAndUpdate(p, f)` without `upsert`
  pub update_one : (D : Type 0) → (D → Bool) → (D → D) → List D → List D
  -- `findOneAndUpdate(p, f, { upsert: true })`, with the document that it makes if none passes
  pub upsert : (D : Type 0) → (D → Bool) → (D → D) → D → List D → List D
  -- `findOneAndDelete(p)`
  pub delete_one : (D : Type 0) → (D → Bool) → List D → List D
  -- `create(d)` in a collection with no unique index
  pub insert : (D : Type 0) → D → List D → List D
  -- `create(d)` under a unique index on `key`; the server may fail for reasons of its own.
  pub create_unique : (D : Type 0) → (D → String) → Option Thrown → D → List D → Created D
  -- `deleteMany(p)`
  pub delete_many : (D : Type 0) → (D → Bool) → List D → List D
  pub find_one_lem : (D : Type 0) (p : D → Bool) (ds : List D) → find_one D p ds ≡ first p ds
  pub find_lem : (D : Type 0) (p : D → Bool) (ds : List D) → find D p ds ≡ select p ds
  pub find_sorted-perm :
      (D : Type 0) (p : D → Bool) (rank : D → ℕ) (ds : List D)
      → Perm (find_sorted D p rank ds) (select p ds)
  pub find_sorted-Falling :
      (D : Type 0) (p : D → Bool) (rank : D → ℕ) (ds : List D)
      → Falling rank (find_sorted D p rank ds)
  pub update_one_lem :
      (D : Type 0) (p : D → Bool) (f : D → D) (ds : List D)
      → update_one D p f ds ≡ update_first p f ds
  pub upsert-update :
      (D : Type 0) (p : D → Bool) (f : D → D) (d : D) (ds : List D)
      → any p ds ≡ true
      → upsert D p f d ds ≡ update_first p f ds
  pub upsert-insert :
      (D : Type 0) (p : D → Bool) (f : D → D) (d : D) (ds : List D)
      → any p ds ≡ false
      → upsert D p f d ds ≡ ds ++ d ∷ []
  pub delete_one_lem :
      (D : Type 0) (p : D → Bool) (ds : List D) → delete_one D p ds ≡ remove_first p ds
  pub insert_lem : (D : Type 0) (d : D) (ds : List D) → insert D d ds ≡ ds ++ d ∷ []
  pub create_unique-failed :
      (D : Type 0) (key : D → String) (e : Thrown) (d : D) (ds : List D)
      → create_unique D key (some e) d ds ≡ failed e
  pub create_unique-duplicate :
      (D : Type 0) (key : D → String) (d : D) (ds : List D)
      → any (λ x. key x == key d) ds ≡ true
      → create_unique D key none d ds ≡ duplicate_key
  pub create_unique-created :
      (D : Type 0) (key : D → String) (d : D) (ds : List D)
      → any (λ x. key x == key d) ds ≡ false
      → create_unique D key none d ds ≡ created (ds ++ d ∷ [])
  pub delete_many_lem : (D : Type 0) (p : D → Bool) (ds : List D) → delete_many D p ds ≡ reject p ds
