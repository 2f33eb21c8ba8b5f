-- ===== src/Mongo/Lists.antt =====
-- Lists with the evident operations meet the interface, so its laws can hold together.
use parking_gate_remote.Common.{
  ℕ, String, ◌≡◌, refl, Bool, true, false, Option, none, some, List, [], ◌∷◌, ◌++◌, ◌==◌, arith,
  any, select, reject, first, update_first, remove_first, leb, if◌then◌else◌,
}
use mathlib.Core.List.{Perm}
use mathlib.Core.List.Perm
use parking_gate_remote.Common.Http.{Thrown}
use parking_gate_remote.Mongo.{Mongo}
use parking_gate_remote.Mongo.Reference.{Created, created, duplicate_key, failed, Falling}

module _ {D : Type 0} where
  module _ (rank : D → ℕ) where
    abbrev insert_falling : D → List D → List D
    insert_falling d [] = d ∷ []
    insert_falling d (e ∷ ds) =
        if leb (rank e) (rank d) then d ∷ e ∷ ds else e ∷ insert_falling d ds

    abbrev sort_falling : List D → List D
    sort_falling [] = []
    sort_falling (d ∷ ds) = insert_falling d (sort_falling ds)

    insert_falling-perm : (d : D) (ds : List D) → Perm (insert_falling d ds) (d ∷ ds)
    insert_falling-perm d [] = Perm.rfl
    insert_falling-perm d (e ∷ ds) = ground (
      arith,
      Perm.refl (d ∷ e ∷ ds),
      Perm.trans (Perm.cons e (insert_falling-perm d ds)) (Perm.swap d e ds),
    )

    pub sort_falling-perm : (ds : List D) → Perm (sort_falling ds) ds
    sort_falling-perm [] = Perm.nil
    sort_falling-perm (d ∷ ds) =
        Perm.trans (insert_falling-perm d (sort_falling ds)) (Perm.cons d (sort_falling-perm ds))

    insert_falling-Falling :
        (d : D) (ds : List D) → Falling rank ds → Falling rank (insert_falling d ds)
    insert_falling-Falling d [] h = tt
    insert_falling-Falling d (e ∷ []) h = ground arith
    insert_falling-Falling d (e ∷ f ∷ ds) (p, h) =
        ground (arith, insert_falling-Falling d (f ∷ ds) h)

    pub sort_falling-Falling : (ds : List D) → Falling rank (sort_falling ds)
    sort_falling-Falling [] = tt
    sort_falling-Falling (d ∷ ds) =
        insert_falling-Falling d (sort_falling ds) (sort_falling-Falling ds)

  abbrev create_unique_lists : (D → String) → Option Thrown → D → List D → Created D
  create_unique_lists key (some e) d ds = failed e
  create_unique_lists key none d ds =
      if any (λ x. key x == key d) ds then duplicate_key else created (ds ++ d ∷ [])

  pub create_unique_lists-duplicate :
      (key : D → String) (d : D) (ds : List D)
      → any (λ x. key x == key d) ds ≡ true
      → create_unique_lists key none d ds ≡ duplicate_key
  create_unique_lists-duplicate key d ds h = rw h

  pub create_unique_lists-created :
      (key : D → String) (d : D) (ds : List D)
      → any (λ x. key x == key d) ds ≡ false
      → create_unique_lists key none d ds ≡ created (ds ++ d ∷ [])
  create_unique_lists-created key d ds h = rw h

module _ {D : Type 0} (p : D → Bool) (f : D → D) (d : D) (ds : List D) where
  abbrev upsert_lists : List D
  upsert_lists = if any p ds then update_first p f ds else ds ++ d ∷ []

  pub upsert_lists-update : any p ds ≡ true → upsert_lists ≡ update_first p f ds
  upsert_lists-update h = rw h

  pub upsert_lists-insert : any p ds ≡ false → upsert_lists ≡ ds ++ d ∷ []
  upsert_lists-insert h = rw h

abbrev pub lists : Mongo
lists = record {
  find_one = λ D p ds. first p ds;
  find = λ D p ds. select p ds;
  find_sorted = λ D p rank ds. sort_falling rank (select p ds);
  update_one = λ D p f ds. update_first p f ds;
  upsert = λ D p f d ds. upsert_lists p f d ds;
  delete_one = λ D p ds. remove_first p ds;
  insert = λ D d ds. ds ++ d ∷ [];
  create_unique = λ D key fault d ds. create_unique_lists key fault d ds;
  delete_many = λ D p ds. reject p ds;
  find_one_lem = λ D p ds. refl;
  find_lem = λ D p ds. refl;
  find_sorted-perm = λ D p rank ds. sort_falling-perm rank (select p ds);
  find_sorted-Falling = λ D p rank ds. sort_falling-Falling rank (select p ds);
  update_one_lem = λ D p f ds. refl;
  upsert-update = λ D p f d ds h. upsert_lists-update p f d ds h;
  upsert-insert = λ D p f d ds h. upsert_lists-insert p f d ds h;
  delete_one_lem = λ D p ds. refl;
  insert_lem = λ D d ds. refl;
  create_unique-failed = λ D key e d ds. refl;
  create_unique-duplicate = λ D key d ds h. create_unique_lists-duplicate key d ds h;
  create_unique-created = λ D key d ds h. create_unique_lists-created key d ds h;
  delete_many_lem = λ D p ds. refl;
}
