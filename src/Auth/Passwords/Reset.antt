-- ===== src/Auth/Passwords/Reset.antt =====
-- How often a link for a new password works (backend/src/auth/auth.service.ts).
use parking_gate_remote.Common.{
  ℕ, ◌≤◌, String, ◌≡◌, sym, ap, ◌∙◌, refl, Bool, true, false, none, some, List, [], ◌∷◌, ◌&&◌,
  arith, inl, inr, Bool-cases, Option-cases, eq_refl, any, any-first, any-select, select, first,
  update_first, length,
}
use parking_gate_remote.Common.Http.{ok, err}
use parking_gate_remote.Mongo.{Mongo}
use parking_gate_remote.Users.{
  Db, has_id, has_valid_reset_token, clear_password_reset_and_set_password,
}
use parking_gate_remote.Users.Schema.{User}
use parking_gate_remote.Auth.{Call}
use parking_gate_remote.Auth.Tokens.{Crypto}
use parking_gate_remote.Auth.Passwords.{accepts, matched_user, reset_password, bad_link}

none-any :
    (p q : User → Bool) (us : List User)
    → length (select p us) ≤ 0
    → any (λ u. p u && q u) us ≡ false
none-any p q [] h = refl
none-any p q (u ∷ us) h = elim (Bool-cases (p u)) [
  | inl y ↦ ground (arith, y, h)
  | inr n ↦ ground (arith, n, h, none-any p q us)
]

none_pass : (p : User → Bool) (us : List User) → length (select p us) ≤ 0 → any p us ≡ false
none_pass p [] h = refl
none_pass p (u ∷ us) h = elim (Bool-cases (p u)) [
  | inl y ↦ ground (arith, y, h)
  | inr n ↦ ground (arith, n, h, none_pass p us)
]

first-any_both :
    (p q : User → Bool) (us : List User) (v : User)
    → first p us ≡ some v
    → q v ≡ true
    → any (λ u. q u && p u) us ≡ true
first-any_both p q [] v h k = ground arith
first-any_both p q (u ∷ us) v h k = elim (Bool-cases (p u)) [
  | inl y ↦ ground (arith, y, h, k)
  | inr n ↦ ground (arith, n, h, k, first-any_both p q us v)
]

any-both : (p q : User → Bool) (us : List User) → any (λ u. p u && q u) us ≡ true → any q us ≡ true
any-both p q [] h = ground (arith, h)
any-both p q (u ∷ us) h = ground (arith, h, any-both p q us)

-- Once the one document with an id has been changed so that it does not pass, and it was the one
-- that passed, none passes.
none_left :
    (p q : User → Bool) (f : User → User) (us : List User)
    → ((u : User) → q (f u) ≡ false)
    → length (select p us) ≤ 1
    → length (select q us) ≤ 1
    → any (λ u. p u && q u) us ≡ true
    → any q (update_first p f us) ≡ false
none_left p q f [] changed one_p one_q h = refl
none_left p q f (u ∷ us) changed one_p one_q h = elim (Bool-cases (p u)) [
  | inl y ↦ elim (Bool-cases (q u)) [
    | inl y' ↦ ground (arith, y, y', one_q, changed u, none_pass q us)
    | inr n' ↦ ground (arith, y, n', one_p, h, none-any p q us)
  ]
  | inr n ↦ elim (Bool-cases (q u)) [
    | inl y' ↦ ground (arith, n, y', one_q, h, none_pass q us, any-both p q us)
    | inr n' ↦ ground (arith, n, n', one_p, one_q, h, none_left p q f us changed)
  ]
]

module _ (mongo : Mongo) (crypto : Crypto) (token : String) where
  abbrev used : String → User → User
  used hash u = record u {
    password_hash = hash;
    reset_password_token_hash = none;
    reset_password_expires_at = none;
  }

  none_matched :
      (now : ℕ) (db : Db)
      → any (accepts mongo crypto token) db.users ≡ false
      → matched_user mongo crypto token now db ≡ none
  unfolding matched_user
  none_matched now db h =
      ap (first (accepts mongo crypto token))
        (mongo.find_lem User (has_valid_reset_token now) db.users)
      ∙ any-first (accepts mongo crypto token) (select (has_valid_reset_token now) db.users) (
          ground (
            arith,
            h,
            any-select (has_valid_reset_token now) (accepts mongo crypto token) db.users,
            any-both (has_valid_reset_token now) (accepts mongo crypto token) db.users,
            Bool-cases
                (any (λ u. has_valid_reset_token now u && accepts mongo crypto token u) db.users),
          ))

  matched_is_stored :
      (now : ℕ) (db : Db) (v : User)
      → matched_user mongo crypto token now db ≡ some v
      → any (λ u. has_id v.id u && accepts mongo crypto token u) db.users ≡ true
  unfolding matched_user
  matched_is_stored now db v h =
      any-both (has_valid_reset_token now) (λ u. has_id v.id u && accepts mongo crypto token u)
        db.users
        (sym (
            any-select (has_valid_reset_token now)
              (λ u. has_id v.id u && accepts mongo crypto token u) db.users)
          ∙ first-any_both (accepts mongo crypto token) (has_id v.id)
              (select (has_valid_reset_token now) db.users) v
              (sym (
                  ap (first (accepts mongo crypto token))
                    (mongo.find_lem User (has_valid_reset_token now) db.users))
                ∙ h)
              (eq_refl v.id))

  none_after :
      (now : ℕ) (hash : String) (db : Db) (v : User)
      → ((id : String) → length (select (has_id id) db.users) ≤ 1)
      → length (select (accepts mongo crypto token) db.users) ≤ 1
      → matched_user mongo crypto token now db ≡ some v
      → any
          (accepts mongo crypto token)
          ((clear_password_reset_and_set_password mongo v.id hash db).users)
        ≡ false
  none_after now hash db v unique one h =
      ap (any (accepts mongo crypto token))
        (mongo.update_one_lem User (has_id v.id) (used hash) db.users)
      ∙ none_left (has_id v.id) (accepts mongo crypto token) (used hash) db.users (λ u. refl)
          (unique v.id) one (matched_is_stored now db v h)

module _ (mongo : Mongo) (crypto : Crypto) (token : String) where
  -- A link for a new password works once: if one user at most accepts its token, and ids are
  -- unique, then after it has been used it is refused at every later time, as long as no other
  -- call has come in between.
  pub reset_password_once :
      (first_password second_password : String) (c later : Call) (db : Db)
      → ((id : String) → length (select (has_id id) db.users) ≤ 1)
      → length (select (accepts mongo crypto token) db.users) ≤ 1
      → (reset_password mongo crypto token first_password c db).0 ≡ ok tt
      → (reset_password mongo crypto token second_password later
          ((reset_password mongo crypto token first_password c db).1)).0
        ≡ err bad_link
  unfolding reset_password
  reset_password_once first_password second_password c later db unique one h =
      elim (Option-cases (matched_user mongo crypto token c.now db)) [
        | inl n ↦ ground (arith, n, h)
        | inr (v, y) ↦ ground (
          arith,
          y,
          none_matched mongo crypto token later.now
              (clear_password_reset_and_set_password mongo v.id (crypto.hash c.salt first_password)
                db)
              (none_after mongo crypto token c.now (crypto.hash c.salt first_password) db v unique
                one y),
        )
      ]
