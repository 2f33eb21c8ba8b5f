-- ===== src/Admin/Listing/Tests.antt =====
-- The theorems on the lists at two users of whom one has a session
-- (backend/src/admin/admin.service.ts).
use parking_gate_remote.Common.{
  ℕ, List, ltb, eq_iff, ◌∙◌, sym, Bool-cases, inl, inr, String, ◌≡◌, ◌≤◌, refl, Bool, false, none,
  some, [], ◌∷◌, ◌==◌, map, any, length, arith, pos,
}
use parking_gate_remote.Mongo.Lists.{lists}
use parking_gate_remote.Users.{Db, new_user, find_by_id, get_all_sessions}
use parking_gate_remote.Users.Schema.{User, approved}
use parking_gate_remote.Admin.{reset_user_device}
use parking_gate_remote.Admin.Listing.{
  SortKey, SortOrder, UsersQuery, only, name, asc, Sorted, sort_keys, device_of, listed, get_users,
}
use parking_gate_remote.Admin.Listing.Cover.{
  Before, ordered, all_users, passing, SortsBy, get_users_cover,
}
use parking_gate_remote.Common.Sorted.{InOrder, Untied}
use parking_gate_remote.Mongo.{Falling}
use parking_gate_remote.Admin.Listing.Disconnect.{
  is_device, shown, left_over, reset_user_device-shown,
}
use mathlib.Core.List.{
  Perm, Mem, Pairwise, Pairwise-cons, not-mem-nil, eq-or-mem_of_mem-cons, mem-singleton,
}
use mathlib.Core.Logic.Or
use mathlib.Core.Bool.{Bool-set}
use mathlib.Core.HLevel.{hedberg}
use native.Mathlib.Nat.{ℕ_set}

abbrev tenant : User
tenant =
    record (new_user "u1" 3 (record {
      email = "dana@x.org";
      password_hash = "h";
      first_name = "Dana";
      last_name = "Bar";
      phone = "0501234567";
      apartment_number = pos 4;
      floor = pos 2;
      status = some approved;
      rejection_reason = none;
    })) { active_device_id = some "old phone" }

abbrev neighbour : User
neighbour = record tenant {
  id = "u2";
  email = "noa@x.org";
  active_device_id = none;
  created_at = 4;
}

abbrev db : Db
db = record {
  users = tenant ∷ neighbour ∷ [];
  sessions =
      record {
        user_id = "u2";
        device_id = "phone";
        session_id = "s1";
        refresh_token_hash = "h";
        last_active_at = 6;
      }
      ∷ [];
}

abbrev equal : String → String → Bool
equal pattern s = pattern == s

abbrev query : UsersQuery
query = record {
  status = only approved;
  q = none;
  page = 1;
  limit = 1;
  sort_field = name;
  sort_order = asc;
}

-- The users by the time of their creation, the newest first, whatever the keys.
abbrev rank : User → ℕ
rank u = u.created_at

abbrev by_creation : Sorted
by_creation read keys order p us = lists.find_sorted User p rank us

abbrev newer : Before
newer keys order u v = ltb (rank v) (rank u)

below_head :
    (u : User) (us : List User)
    → Falling rank (u ∷ us)
    → (v : User) → Mem v us
    → ltb (rank u) (rank v) ≡ false
below_head u [] h v m = absurd (not-mem-nil m)
below_head u (w ∷ us) (le, h) v m =
    Or.elim (Bool-set _ _) (eq-or-mem_of_mem-cons m) (λ e. rw e (ground (arith, le)))
      (λ later. ground (arith, le, below_head w us h v later))

Falling-tail : (u : User) (us : List User) → Falling rank (u ∷ us) → Falling rank us
Falling-tail u [] h = tt
Falling-tail u (v ∷ us) h = h.1

Falling-InOrder :
    (keys : List SortKey) (order : SortOrder) (us : List User)
    → Falling rank us
    → InOrder (newer keys order) us
Falling-InOrder keys order [] h = Pairwise.nil
Falling-InOrder keys order (u ∷ us) h =
    Pairwise-cons.1 (below_head u us h, Falling-InOrder keys order us (Falling-tail u us h))

String-discrete : Discrete String
String-discrete s t = elim (Bool-cases (s == t)) [
  | inl y ↦ yes ((eq_iff s t).0 y)
  | inr n ↦ no (λ e. ground (arith, (eq_iff s t).1 e))
]

String-set : IsSet String
String-set = hedberg String-discrete

User-set : IsSet User
User-set = hlevel (String-set, ℕ_set)

untied : Untied (newer (sort_keys name) asc) (tenant ∷ neighbour ∷ [])
untied u v m n h k =
    Or.elim (User-set u v) (eq-or-mem_of_mem-cons m)
      (λ first.
        Or.elim (User-set u v) (eq-or-mem_of_mem-cons n) (λ same. first ∙ sym same)
          (λ later.
            let second = (mem-singleton User-set).0 later in ground (arith, first, second, h, k)))
      (λ later.
        let first = (mem-singleton User-set).0 later in
        Or.elim (User-set u v) (eq-or-mem_of_mem-cons n) (λ same. ground (arith, first, same, h, k))
          (λ rest. first ∙ sym ((mem-singleton User-set).0 rest)))

sorts : SortsBy newer by_creation
sorts = record {
  sorted-Perm = λ read keys order p us. lists.find_sorted-perm User p rank us;
  sorted-InOrder = λ read keys order p us.
      Falling-InOrder keys order (lists.find_sorted User p rank us)
        (lists.find_sorted-Falling User p rank us);
  irreflexive = λ keys order u. ground arith;
}

get_users_cover_example :
    (all_users lists by_creation equal
        (λ u. 9)
        query
        db
        (get_users lists by_creation equal (λ u. 9) 7 query db).total_pages
        1
      ≡ map
          (listed lists by_creation equal (λ u. 9) db)
          (ordered lists by_creation equal (λ u. 9) query db 7))
    × Perm
        (ordered lists by_creation equal (λ u. 9) query db 7)
        (passing lists by_creation equal (λ u. 9) query db)
    × InOrder (newer (sort_keys name) asc) (ordered lists by_creation equal (λ u. 9) query db 7)
    × ((get_users lists by_creation equal (λ u. 9) 7 query db).total ≡ 2)
    × (length (get_users lists by_creation equal (λ u. 9) 7 query db).items ≤ 1)
get_users_cover_example =
    get_users_cover lists by_creation equal (λ u. 9) query db newer sorts untied 7 (omega arith)

two_pages : (get_users lists by_creation equal (λ u. 9) 1 query db).total_pages ≡ 2
unfolding get_users
two_pages = refl

-- A user with no session is listed with the device that the user document names.
legacy : map (λ d. d.device_id) (shown lists (λ u. 9) "u1" tenant db) ≡ "old phone" ∷ []
legacy = refl

reset_user_device-shown_example :
    (v : User) × (find_by_id lists "u2" ((reset_user_device lists "u2" "phone" db).1) ≡ some v)
    × (shown lists (λ u. 9) "u2" v ((reset_user_device lists "u2" "phone" db).1)
        ≡ left_over "phone" (map device_of (get_all_sessions lists "u2" db)))
    × (any
          (is_device "phone")
          (shown lists (λ u. 9) "u2" v ((reset_user_device lists "u2" "phone" db).1))
        ≡ false)
reset_user_device-shown_example =
    reset_user_device-shown lists (λ u. 9) "u2" "phone" neighbour db refl
