-- ===== src/Auth/Passwords/Request.antt =====
-- What a request for a new password leads to (backend/src/auth/auth.service.ts).
use parking_gate_remote.Common.{
  ℕ, ◌<◌, ◌+◌, ◌*◌, String, ◌≡◌, ap, ◌∙◌, refl, Bool, true, false, Option, none, some, List, [],
  ◌∷◌, ◌==◌, arith, inl, inr, Bool-cases, any, select, first, update_first,
}
use parking_gate_remote.Common.Http.{ok}
use parking_gate_remote.Mongo.{Mongo}
use parking_gate_remote.Users.{
  Db, has_id, find_by_id, find_by_email, update_user, has_valid_reset_token,
}
use parking_gate_remote.Users.Lookup.{first_found, update_user-found}
use parking_gate_remote.Users.Schema.{User}
use parking_gate_remote.Auth.{Call}
use parking_gate_remote.Auth.Tokens.{Crypto}
use parking_gate_remote.Auth.Passwords.{
  accepts, matched_user, reset_password, request_password_reset, with_reset_token, or_default,
}

-- The one element that a change makes pass is the first one that passes.
first-made :
    (a v p : User → Bool) (f : User → User) (us : List User) (u : User)
    → any a us ≡ false
    → first p us ≡ some u
    → a (f u) ≡ true
    → v (f u) ≡ true
    → first a (select v (update_first p f us)) ≡ some (f u)
first-made a v p f [] u h k l m = ground arith
first-made a v p f (x ∷ us) u h k l m = elim (Bool-cases (p x)) [
  | inl y ↦ ground (arith, y, h, k, l, m)
  | inr n ↦ elim (Bool-cases (v x)) [
    | inl y' ↦ ground (arith, n, y', h, k, l, m, first-made a v p f us u)
    | inr n' ↦ ground (arith, n, n', h, k, l, m, first-made a v p f us u)
  ]
]

module _ (mongo : Mongo) (crypto : Crypto) where
  abbrev made : Option ℕ → Call → User → User
  made minutes c = with_reset_token mongo crypto (or_default minutes 60) c

  matched_after :
      (minutes : Option ℕ) (c : Call) (now : ℕ) (db : Db) (u : User)
      → find_by_id mongo u.id db ≡ some u
      → any (accepts mongo crypto c.random_hex) db.users ≡ false
      → crypto.hash c.salt c.random_hex == "" ≡ false
      → now < c.now + or_default minutes 60 * 60 * 1000
      → matched_user mongo crypto c.random_hex now (update_user mongo u.id (made minutes c) db)
        ≡ some (made minutes c u)
  unfolding matched_user
  matched_after minutes c now db u by_id fresh filled soon =
      ap (first (accepts mongo crypto c.random_hex)) (
        mongo.find_lem User (has_valid_reset_token now)
          (mongo.update_one User (has_id u.id) (made minutes c) db.users)
        ∙ ap (select (has_valid_reset_token now))
            (mongo.update_one_lem User (has_id u.id) (made minutes c) db.users))
      ∙ first-made (accepts mongo crypto c.random_hex) (has_valid_reset_token now) (has_id u.id)
          (made minutes c) db.users u fresh (first_found mongo u.id u db by_id)
          (ground (arith, filled, crypto.compare-hash c.salt c.random_hex)) (ground (arith, soon))

  reset-matched :
      (later : Call) (new_password : String) (db : Db) (v : User) (token : String)
      → matched_user mongo crypto token later.now db ≡ some v
      → find_by_id mongo v.id db ≡ some v
      → ((reset_password mongo crypto token new_password later db).0 ≡ ok tt)
        × (find_by_id mongo v.id ((reset_password mongo crypto token new_password later db).1)
            ≡ some (record v {
              password_hash = crypto.hash later.salt new_password;
              reset_password_token_hash = none;
              reset_password_expires_at = none;
            }))
  unfolding reset_password
  reset-matched later new_password db v token m found = ground (
    arith,
    m,
    update_user-found mongo v.id v db found
        (λ x. record x {
          password_hash = crypto.hash later.salt new_password;
          reset_password_token_hash = none;
          reset_password_expires_at = none;
        })
        refl,
  )

  -- A link for a new password works until it expires: if the user of the e-mail address is the
  -- one with its id, no user accepts the new token before the request, and no hash is the empty
  -- text, then with this token and no other call in between the stored user gets the new
  -- password and no longer has a token.
  pub request_password_reset-reset_password :
      (minutes : Option ℕ) (homepage_url : Option String) (email new_password : String)
      (c later : Call) (db : Db) (u : User)
      → find_by_email mongo email db ≡ some u
      → find_by_id mongo u.id db ≡ some u
      → any (accepts mongo crypto c.random_hex) db.users ≡ false
      → crypto.hash c.salt c.random_hex == "" ≡ false
      → later.now < c.now + or_default minutes 60 * 60 * 1000
      → ((reset_password mongo crypto c.random_hex new_password later
            ((request_password_reset mongo crypto minutes homepage_url email c db).1)).0
          ≡ ok tt)
        × (find_by_id mongo u.id (
              (reset_password mongo crypto c.random_hex new_password later
                ((request_password_reset mongo crypto minutes homepage_url email c db).1)).1)
            ≡ some (record u {
              password_hash = crypto.hash later.salt new_password;
              reset_password_token_hash = none;
              reset_password_expires_at = none;
            }))
  unfolding request_password_reset
  request_password_reset-reset_password minutes homepage_url email new_password c later db u found
        by_id fresh filled soon =
      ground (
        arith,
        found,
        reset-matched later new_password (update_user mongo u.id (made minutes c) db)
            (made minutes c u) c.random_hex
            (matched_after minutes c later.now db u by_id fresh filled soon)
            (update_user-found mongo u.id u db by_id (made minutes c) refl),
      )
