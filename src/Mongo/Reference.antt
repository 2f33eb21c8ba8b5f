-- ===== src/Mongo/Reference.antt =====
-- The vocabulary of the interface to MongoDB.
use parking_gate_remote.Common.{ℕ, ◌≤◌, List, [], ◌∷◌}
use parking_gate_remote.Common.Http.{Thrown}

-- What `create` comes to under a unique index: the new documents, error 11000, another error.
pub data Created (D : Type 0) : Type 0 where
  created : List D → Created D
  duplicate_key : Created D
  failed : Thrown → Created D

-- No later element has a greater rank.
abbrev pub Falling : {D : Type 0} → (D → ℕ) → List D → Type 0
Falling rank [] = Unit
Falling rank (d ∷ []) = Unit
Falling rank (d ∷ e ∷ ds) = (rank e ≤ rank d) × Falling rank (e ∷ ds)
