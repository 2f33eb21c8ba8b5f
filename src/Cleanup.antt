-- ===== src/Cleanup.antt =====
-- The removal of users whose e-mail addresses differ by case or spaces only: main of
-- backend/scripts/cleanup-duplicate-emails.ts; the other version of it is in Shell. What
-- MongoDB's $group and $toLower of $trim give are parameters, and so is what JavaScript makes of
-- `trim().toLowerCase()`. Each user has a time of creation, in milliseconds. Of what is printed,
-- only the summary is modelled.
pub mod Shell
pub mod Agree
mod Tests
use parking_gate_remote.Common.{
  ℕ, ◌+◌, ◌*◌, ◌/◌, String, Bool, true, false, not, List, [], ◌∷◌, ◌==◌, ◌&&◌, if◌then◌else◌,
  length, any, select, leb, ltb,
}
use parking_gate_remote.Mongo.{Mongo}
use parking_gate_remote.Users.{Db, has_id}
use parking_gate_remote.Users.Schema.{User, Session}

pub record Summary : Type 0 where
  pub deleted : ℕ
  pub lowercased : ℕ

-- Documents under the normalised address that they share.
abbrev pub Group : Type 0
Group = String × List User

-- `new Date(String(date)).getTime()`: the text of a date has no milliseconds.
abbrev pub time_in_script : User → ℕ
time_in_script u = u.created_at / 1000 * 1000

-- `sort`, which is stable, with the newest first
abbrev pub insert_newest : User → List User → List User
insert_newest u [] = u ∷ []
insert_newest u (v ∷ vs) =
    let rest = insert_newest u vs in
    if leb (time_in_script v) (time_in_script u) then u ∷ v ∷ vs else v ∷ rest

abbrev pub newest_first : List User → List User
newest_first [] = []
newest_first (u ∷ us) = insert_newest u (newest_first us)

abbrev pub is_one_of : List User → String → Bool
is_one_of us id = any (λ u. u.id == id) us

abbrev with_email : String → User → User
with_email email u = record u { email = email }

abbrev pub count_first : String → List User → Summary → Summary
count_first email [] s = s
count_first email (keeper ∷ losers) s = record {
  deleted = s.deleted + length losers;
  lowercased = if keeper.email == email then s.lowercased else s.lowercased + 1;
}

module _ (mongo : Mongo) where
  -- what is done to the documents of a group, the newest first
  abbrev pub keep_first : String → List User → Db → Db
  keep_first email [] db = db
  keep_first email (keeper ∷ losers) db =
      let users = mongo.delete_many User (λ u. is_one_of losers u.id) db.users in
      record db {
        users =
            if keeper.email == email
            then users
            else mongo.update_one User (has_id keeper.id) (with_email email) users;
        sessions = mongo.delete_many Session (λ s. is_one_of losers s.user_id) db.sessions;
      }

  -- the loop over the groups
  abbrev pub clean_groups : Bool → List Group → Summary × Db → Summary × Db
  clean_groups apply [] (s, db) = (s, db)
  clean_groups apply ((email, docs) ∷ gs) (s, db) =
      let sorted = newest_first docs in
      clean_groups apply gs
        (count_first email sorted s, if apply then keep_first email sorted db else db)

  -- the loop over the users with an address that is not normalised, but shared by no other
  abbrev pub clean_stragglers : (String → String) → Bool → List User → Summary × Db → Summary × Db
  clean_stragglers normalized apply [] (s, db) = (s, db)
  clean_stragglers normalized apply (u ∷ us) (s, db) = clean_stragglers normalized apply us (
    record s { lowercased = s.lowercased + 1 },
    if apply
        then record db {
          users = mongo.update_one User (has_id u.id) (with_email (normalized u.email)) db.users;
        }
        else db,
  )

abbrev pub is_handled : List Group → String → Bool
is_handled gs id = any (λ (email, docs). is_one_of docs id) gs

module _ (mongo : Mongo) (grouped : List User → List Group)
    (norm normalized : String → String) where
  -- the groups of more than one user
  abbrev pub duplicates : Db → List Group
  duplicates db = select (λ (email, docs). ltb 1 (length docs)) (grouped db.users)

  abbrev pub stragglers : List Group → Db → List User
  stragglers gs db =
      select (λ u. not (is_handled gs u.id))
        (mongo.find User (λ u. not (u.email == norm u.email)) db.users)

  -- `main`
  unfoldable pub run_script : Bool → Db → Summary × Db
  run_script apply db =
      let gs = duplicates db in
      let (s, db') = clean_groups mongo apply gs (record { deleted = 0; lowercased = 0 }, db) in
      clean_stragglers mongo normalized apply (stragglers gs db') (s, db')
