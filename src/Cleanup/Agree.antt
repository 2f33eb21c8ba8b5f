-- ===== src/Cleanup/Agree.antt =====
-- Where the two versions of the removal do the same
-- (backend/scripts/cleanup-duplicate-emails.ts, deploy/cleanup-duplicate-emails.mongosh.js).
use parking_gate_remote.Common.{
  ◌+◌, ◌%◌, String, ◌≡◌, refl, ap, sym, ◌∙◌, Bool, true, false, not, List, [], ◌∷◌, map,
  if◌then◌else◌, arith, every, select, any-append, ltb, eqb, length, Bool-cases, inl, inr, ◌==◌,
  ◌||◌,
}
use parking_gate_remote.Mongo.{Mongo}
use parking_gate_remote.Users.{Db, has_id}
use parking_gate_remote.Users.Schema.{User, Session}
use parking_gate_remote.Cleanup.{
  Summary, Group, insert_newest, newest_first, time_in_script, is_one_of, is_handled, clean_groups,
  clean_stragglers, count_first, keep_first, duplicates, stragglers, run_script,
}
use parking_gate_remote.Cleanup.Shell.{
  Counts, time_in_shell, place, sorted_docs, is_in, count_losers, count_keeper, handled,
  apply_group, clean_group, each_group, each_straggler, run_in_shell,
}
use mathlib.Core.Path.{fun_ext}

-- A user who was created at a whole second.
abbrev pub is_whole : User → Bool
is_whole u = eqb (u.created_at % 1000) 0

whole_time : (u : User) → is_whole u ≡ true → time_in_script u ≡ time_in_shell u
whole_time u h = ground (arith, h)

insert_newest-agree :
    (u : User) (vs : List User)
    → is_whole u ≡ true
    → every is_whole vs ≡ true
    → insert_newest u vs ≡ place u vs
insert_newest-agree u [] h k = refl
insert_newest-agree u (v ∷ vs) h k =
    ground (arith, whole_time u, whole_time v, insert_newest-agree u vs)

every-insert_newest :
    (p : User → Bool) (u : User) (vs : List User)
    → p u ≡ true
    → every p vs ≡ true
    → every p (insert_newest u vs) ≡ true
every-insert_newest p u [] h k = ground (arith, h)
every-insert_newest p u (v ∷ vs) h k = ground (arith, h, k, every-insert_newest p u vs)

every-newest_first :
    (p : User → Bool) (us : List User) → every p us ≡ true → every p (newest_first us) ≡ true
every-newest_first p [] h = refl
every-newest_first p (u ∷ us) h =
    ground (arith, h, every-newest_first p us, every-insert_newest p u (newest_first us))

newest_first-agree : (us : List User) → every is_whole us ≡ true → newest_first us ≡ sorted_docs us
newest_first-agree [] h = refl
newest_first-agree (u ∷ us) h = ground (
  arith,
  h,
  newest_first-agree us,
  every-newest_first is_whole us,
  insert_newest-agree u (newest_first us),
)

every-select :
    {A : Type 0} (p q : A → Bool) (gs : List A) → every p gs ≡ true → every p (select q gs) ≡ true
every-select p q [] h = refl
every-select p q (g ∷ gs) h = ground (arith, h, every-select p q gs)

-- A group of users who were each created at a whole second.
abbrev is_whole_group : Group → Bool
is_whole_group (email, docs) = every is_whole docs

-- What the shell announces, as the script does.
abbrev pub announced : Counts × Db → Summary × Db
announced (n, db) = (record { deleted = n.to_delete; lowercased = n.to_lowercase }, db)

is_in-ids :
    (us : List User) (id : String) → is_in (map (λ (d : User). d.id) us) id ≡ is_one_of us id
is_in-ids [] id = refl
is_in-ids (u ∷ us) id = ap (λ b. (u.id == id) || b) (is_in-ids us id)

is_in-handled : (gs : List Group) (id : String) → is_in (handled gs) id ≡ is_handled gs id
is_in-handled [] id = refl
is_in-handled ((email, docs) ∷ gs) id =
    any-append (λ i. i == id) (map (λ (d : User). d.id) docs) (handled gs)
    ∙ ap (λ b. b || is_in (handled gs) id) (is_in-ids docs id)
    ∙ ap (λ b. is_one_of docs id || b) (is_in-handled gs id)

count_losers_lem :
    (ls : List User) (n : Counts)
    → count_losers ls n ≡ record n { to_delete = n.to_delete + length ls }
count_losers_lem [] n = ground arith
count_losers_lem (l ∷ ls) n =
    ground (arith, count_losers_lem ls (record n { to_delete = n.to_delete + 1 }))

announced-count :
    (email : String) (keeper : User) (losers : List User) (n : Counts) (db : Db)
    → announced (count_keeper email keeper (count_losers losers n), db)
      ≡ (count_first email (keeper ∷ losers) (announced (n, db)).0, db)
announced-count email keeper losers n db =
    ap (λ m. announced (count_keeper email keeper m, db)) (count_losers_lem losers n) ∙ ground arith

module _ (mongo : Mongo) where
  -- The database without the losers and their sessions, by the test on ids.
  abbrev without : Db → (String → Bool) → Db
  without db p = record db {
    users = mongo.delete_many User (λ u. p u.id) db.users;
    sessions = mongo.delete_many Session (λ s. p s.user_id) db.sessions;
  }

  abbrev relabelled : String → User → Db → Db
  relabelled email keeper db = record db {
    users = mongo.update_one User (has_id keeper.id) (λ u. record u { email = email }) db.users;
  }

  apply_group-keep_first :
      (email : String) (keeper : User) (losers : List User) (db : Db)
      → apply_group mongo email keeper losers db ≡ keep_first mongo email (keeper ∷ losers) db
  apply_group-keep_first email keeper losers db =
      let same = ap (without db) (fun_ext (is_in-ids losers)) in
      elim (Bool-cases (keeper.email == email)) [
        | inl y ↦ rw y same
        | inr n ↦ rw n (ap (relabelled email keeper) same)
      ]

  clean_group-agree :
      (apply : Bool) (email : String) (docs : List User) (n : Counts) (db : Db)
      → announced (clean_group mongo apply email docs (n, db)) ≡ (
        count_first email docs (announced (n, db)).0,
        if apply then keep_first mongo email docs db else db,
      )
  clean_group-agree apply email [] n db = ground arith
  clean_group-agree apply email (keeper ∷ losers) n db =
      announced-count email keeper losers n
        (if apply then apply_group mongo email keeper losers db else db)
      ∙ ap
          (λ d.
            (count_first email (keeper ∷ losers) (announced (n, db)).0, if apply then d else db))
          (apply_group-keep_first email keeper losers db)

  each_group-agree :
      (apply : Bool) (gs : List Group) (r : Counts × Db)
      → every is_whole_group gs ≡ true
      → announced (each_group mongo apply gs r) ≡ clean_groups mongo apply gs (announced r)
  each_group-agree apply [] r h = refl
  each_group-agree apply ((email, docs) ∷ gs) (n, db) h =
      let same = newest_first-agree docs (ground (arith, h)) in
      each_group-agree apply gs (clean_group mongo apply email (sorted_docs docs) (n, db))
        (ground (arith, h))
      ∙ ap (clean_groups mongo apply gs) (clean_group-agree apply email (sorted_docs docs) n db)
      ∙ ap
          (λ us. clean_groups mongo apply gs (
            count_first email us (announced (n, db)).0,
            if apply then keep_first mongo email us db else db,
          ))
          (sym same)

  each_straggler-agree :
      (normalized : String → String) (apply : Bool) (us : List User) (r : Counts × Db)
      → announced (each_straggler mongo normalized apply us r)
        ≡ clean_stragglers mongo normalized apply us (announced r)
  each_straggler-agree normalized apply [] r = refl
  each_straggler-agree normalized apply (u ∷ us) (n, db) =
      each_straggler-agree normalized apply us _

  dry_groups :
      (gs : List Group) (s : Summary) (db : Db) → (clean_groups mongo false gs (s, db)).1 ≡ db
  dry_groups [] s db = refl
  dry_groups ((email, docs) ∷ gs) s db = dry_groups gs (count_first email (newest_first docs) s) db

  dry_stragglers :
      (normalized : String → String) (us : List User) (s : Summary) (db : Db)
      → (clean_stragglers mongo normalized false us (s, db)).1 ≡ db
  dry_stragglers normalized [] s db = refl
  dry_stragglers normalized (u ∷ us) s db =
      dry_stragglers normalized us (record s { lowercased = s.lowercased + 1 }) db

module _ (mongo : Mongo) (grouped : List User → List Group)
    (norm normalized : String → String) where
  dry_run : (db : Db) → (run_script mongo grouped norm normalized false db).1 ≡ db
  unfolding run_script
  dry_run db =
      let gs = duplicates mongo grouped norm normalized db in
      let (s, db') = clean_groups mongo false gs (record { deleted = 0; lowercased = 0 }, db) in
      dry_stragglers mongo normalized (stragglers mongo grouped norm normalized gs db') s db'
      ∙ dry_groups mongo gs (record { deleted = 0; lowercased = 0 }) db

  -- The stragglers, by the test whether a user was in a group.
  abbrev left_alone : Db → (String → Bool) → List User
  left_alone db p =
      select (λ u. not (p u.id)) (mongo.find User (λ u. not (u.email == norm u.email)) db.users)

  agree :
      (apply : Bool) (db : Db)
      → every is_whole_group (duplicates mongo grouped norm normalized db) ≡ true
      → announced (run_in_shell mongo grouped norm normalized apply db)
        ≡ run_script mongo grouped norm normalized apply db
  unfolding run_script run_in_shell
  agree apply db whole =
      let gs = duplicates mongo grouped norm normalized db in
      let r = each_group mongo apply gs (record { to_delete = 0; to_lowercase = 0 }, db) in
      each_straggler-agree mongo normalized apply (left_alone r.1 (is_in (handled gs))) r
      ∙ ap (λ p. clean_stragglers mongo normalized apply (left_alone r.1 p) (announced r))
          (fun_ext (is_in-handled gs))
      ∙ ap
          (λ ((s, db') : Summary × Db).
            clean_stragglers mongo normalized apply (left_alone db' (is_handled gs)) (s, db'))
          (each_group-agree mongo apply gs (record { to_delete = 0; to_lowercase = 0 }, db) whole)

  -- If the groups hold users of the collection and each user was created at a whole second, then the
  -- two versions do the same, with and without `apply`: they leave the same users and sessions and
  -- announce the same numbers. Without `apply` both leave everything as it was.
  pub run_script-run_in_shell :
      ((p : User → Bool) (us : List User)
        → every p us ≡ true
        → every (λ (email, docs). every p docs) (grouped us) ≡ true)
      → (apply : Bool) (db : Db) → every is_whole db.users ≡ true
      → (announced (run_in_shell mongo grouped norm normalized apply db)
          ≡ run_script mongo grouped norm normalized apply db)
        × ((run_script mongo grouped norm normalized false db).1 ≡ db)
        × ((run_in_shell mongo grouped norm normalized false db).1 ≡ db)
  run_script-run_in_shell within apply db whole =
      let groups =
        every-select is_whole_group (λ (email, docs). ltb 1 (length docs)) (grouped db.users)
          (within is_whole db.users whole) in
      (
        agree apply db groups,
        dry_run db,
        ap (λ (r : Summary × Db). r.1) (agree false db groups) ∙ dry_run db,
      )
