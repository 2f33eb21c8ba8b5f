-- ===== src/Cleanup/Tests.antt =====
-- Two users with one address but for case
-- (backend/scripts/cleanup-duplicate-emails.ts, deploy/cleanup-duplicate-emails.mongosh.js).
use parking_gate_remote.Common.{
  ℕ, String, ◌≡◌, refl, Bool, true, false, none, List, [], ◌∷◌, pos, map, every, arith,
}
use parking_gate_remote.Mongo.Lists.{lists}
use parking_gate_remote.Users.{Db, new_user}
use parking_gate_remote.Users.Schema.{User}
use parking_gate_remote.Cleanup.{Group, run_script}
use parking_gate_remote.Cleanup.Shell.{run_in_shell}
use parking_gate_remote.Cleanup.Agree.{announced, run_script-run_in_shell}

abbrev person : String → String → ℕ → User
person id email time = new_user id time (record {
  email = email;
  password_hash = "h";
  first_name = "Dana";
  last_name = "Bar";
  phone = "0501234567";
  apartment_number = pos 4;
  floor = pos 2;
  status = none;
  rejection_reason = none;
})

-- Of both addresses, the normalised one is this.
abbrev dana : String → String
dana email = "dana@x.org"

abbrev one_group : List User → List Group
one_group us = ("dana@x.org", us) ∷ []

abbrev old_and_new : ℕ → ℕ → Db
old_and_new s t = record {
  users = person "u1" "Dana@x.org" s ∷ person "u2" "dana@x.org " t ∷ [];
  sessions = [];
}

kept :
    map (λ u. u.email) (run_script lists one_group dana dana true (old_and_new 1000 2000)).1.users
    ≡ "dana@x.org" ∷ []
unfolding run_script
kept = refl

-- In one second, the script keeps the one that comes first and the shell the newer one.
apart :
    (map (λ u. u.id) (run_script lists one_group dana dana true (old_and_new 1200 1500)).1.users
      ≡ "u1" ∷ [])
    × (map (λ u. u.id) (run_in_shell lists one_group dana dana true (old_and_new 1200 1500)).1.users
        ≡ "u2" ∷ [])
unfolding run_script run_in_shell
apart = (refl, refl)

in_group :
    (p : User → Bool) (us : List User)
    → every p us ≡ true
    → every (λ (email, docs). every p docs) (one_group us) ≡ true
in_group p us h = ground (arith, h)

run_script-run_in_shell_example :
    (announced (run_in_shell lists one_group dana dana true (old_and_new 1000 2000))
      ≡ run_script lists one_group dana dana true (old_and_new 1000 2000))
    × ((run_script lists one_group dana dana false (old_and_new 1000 2000)).1
        ≡ old_and_new 1000 2000)
    × ((run_in_shell lists one_group dana dana false (old_and_new 1000 2000)).1
        ≡ old_and_new 1000 2000)
run_script-run_in_shell_example =
    run_script-run_in_shell lists one_group dana dana in_group true (old_and_new 1000 2000) refl
