-- ===== src/Cleanup/Shell.antt =====
-- The version for MongoDB's shell, deploy/cleanup-duplicate-emails.mongosh.js, translated on its own.
-- The parameters are those of the script. Of what is printed, only the summary is modelled.
use parking_gate_remote.Common.{
  ℕ, ◌+◌, String, Bool, not, List, [], ◌∷◌, ◌++◌, ◌==◌, if◌then◌else◌, length, any, select, leb,
  ltb, map,
}
use parking_gate_remote.Mongo.{Mongo}
use parking_gate_remote.Users.{Db, has_id}
use parking_gate_remote.Users.Schema.{User, Session}
use parking_gate_remote.Cleanup.{Group}

-- `toDelete` and `toLowercase`
pub record Counts : Type 0 where
  pub to_delete : ℕ
  pub to_lowercase : ℕ

-- `new Date(date).getTime()`
abbrev pub time_in_shell : User → ℕ
time_in_shell u = u.created_at

abbrev pub place : User → List User → List User
place u [] = u ∷ []
place u (v ∷ vs) =
    let rest = place u vs in
    if leb (time_in_shell v) (time_in_shell u) then u ∷ v ∷ vs else v ∷ rest

-- `g.docs.slice().sort(…)`, which is stable, with the newest first
abbrev pub sorted_docs : List User → List User
sorted_docs [] = []
sorted_docs (u ∷ us) = place u (sorted_docs us)

-- `$in`, and a key of `handled`
abbrev pub is_in : List String → String → Bool
is_in ids id = any (λ i. i == id) ids

-- the loop over the losers that prints them
abbrev pub count_losers : List User → Counts → Counts
count_losers [] n = n
count_losers (l ∷ ls) n = count_losers ls (record n { to_delete = n.to_delete + 1 })

abbrev pub count_keeper : String → User → Counts → Counts
count_keeper email keeper n =
    if not (keeper.email == email) then record n { to_lowercase = n.to_lowercase + 1 } else n

-- `$set: { email }`
abbrev set_email : String → User → User
set_email email u = record u { email = email }

-- the keys of `handled`
abbrev pub handled : List Group → List String
handled [] = []
handled ((email, docs) ∷ gs) = map (λ (d : User). d.id) docs ++ handled gs

module _ (mongo : Mongo) where
  -- the writes of the loop over the groups
  abbrev pub apply_group : String → User → List User → Db → Db
  apply_group email keeper losers db =
      let ids = map (λ (d : User). d.id) losers in
      let db' = record db { users = mongo.delete_many User (λ u. is_in ids u.id) db.users } in
      let fewer = record db' {
        sessions = mongo.delete_many Session (λ s. is_in ids s.user_id) db'.sessions;
      } in
      if not (keeper.email == email)
      then record fewer {
        users = mongo.update_one User (has_id keeper.id) (set_email email) fewer.users;
      }
      else fewer

  -- one round of the loop; a group of `$group` is not empty.
  abbrev pub clean_group : Bool → String → List User → Counts × Db → Counts × Db
  clean_group apply email [] r = r
  clean_group apply email (keeper ∷ losers) (n, db) = (
    count_keeper email keeper (count_losers losers n),
    if apply then apply_group email keeper losers db else db,
  )

  abbrev pub each_group : Bool → List Group → Counts × Db → Counts × Db
  each_group apply [] r = r
  each_group apply ((email, docs) ∷ gs) r =
      each_group apply gs (clean_group apply email (sorted_docs docs) r)

  -- the loop over `stragglers`
  abbrev pub each_straggler : (String → String) → Bool → List User → Counts × Db → Counts × Db
  each_straggler normalized apply [] r = r
  each_straggler normalized apply (u ∷ us) (n, db) = each_straggler normalized apply us (
    record n { to_lowercase = n.to_lowercase + 1 },
    if apply
        then record db {
          users = mongo.update_one User (has_id u.id) (set_email (normalized u.email)) db.users;
        }
        else db,
  )

module _ (mongo : Mongo) (grouped : List User → List Group)
    (norm normalized : String → String) where
  -- the whole file
  unfoldable pub run_in_shell : Bool → Db → Counts × Db
  run_in_shell apply db =
      let groups = select (λ (email, docs). ltb 1 (length docs)) (grouped db.users) in
      let (n, db') =
        each_group mongo apply groups (record { to_delete = 0; to_lowercase = 0 }, db) in
      let keys = handled groups in
      let stragglers =
        select (λ u. not (is_in keys u.id))
          (mongo.find User (λ u. not (u.email == norm u.email)) db'.users) in
      each_straggler mongo normalized apply stragglers (n, db')
