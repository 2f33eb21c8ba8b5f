-- ===== src/Auth/Guards/Access.antt =====
-- Who gets past the guards (backend/src/auth/jwt.strategy.ts, approved.guard.ts, admin.guard.ts)
-- before and after a login, a logout or the loss of a role.
use parking_gate_remote.Common.{
  ℕ, String, ◌≡◌, ◌≢◌, refl, sym, ap, ◌∙◌, ◌⊎◌, ◌↔◌, inl, inr, Bool, true, false, some, List, [],
  ◌∷◌, arith, eq_iff, any, select, first, first-passes, Bool-cases, Option-cases,
}
use parking_gate_remote.Common.Http.{Result, ok, err, is_ok}
use parking_gate_remote.Mongo.{Mongo}
use parking_gate_remote.Users.{Db, has_id, of_user, of_device, has_session_id, delete_session}
use parking_gate_remote.Users.Schema.{User, Session, approved, user, admin}
use parking_gate_remote.Users.Sessions.{session_of, first-any, any-reject_self}
use parking_gate_remote.Auth.Tokens.{Payload, Crypto}
use parking_gate_remote.Auth.{
  Call, is_admin, on_ok, LoginDto, LoginResponse, login, logout, admit_logout, leave,
}
use parking_gate_remote.Auth.Login.{stored_hash, login-single}
use parking_gate_remote.Auth.Guards.{
  AuthUser, auth_user, check_session, validate, check_approved, approved_guard, admin_guard,
  approved_route, admin_route,
}

-- A session of the user and device of the token, found by its session id.
abbrev pub HasSession : Payload → List Session → Type 0
HasSession p ss =
    (s : Session) × (first (has_session_id p.sid) ss ≡ some s)
    × (s.user_id ≡ p.sub)
    × (s.device_id ≡ p.device_id)

module _ (mongo : Mongo) where
  check_session_iff :
      (p : Payload) (db : Db) → (is_ok (check_session mongo p db) ≡ true) ↔ HasSession p db.sessions
  unfolding check_session
  check_session_iff p db =
      let find = mongo.find_one_lem Session (has_session_id p.sid) db.sessions in
      elim (Option-cases (first (has_session_id p.sid) db.sessions)) [
        | inl missing ↦ ground arith
        | inr (s, found) ↦ ground (arith, eq_iff s.user_id p.sub, eq_iff s.device_id p.device_id)
      ]

  validate_session :
      (p : Payload) (db : Db)
      → (p.role ≡ admin) ⊎ HasSession p db.sessions
      → is_admin p.role ≡ false
      → is_ok (check_session mongo p db) ≡ true
  validate_session p db (inl privileged) plain = ground arith
  validate_session p db (inr h) plain = (check_session_iff p db).1 h

  -- A token whose signature holds is accepted exactly when its user exists and, unless it is an
  -- admin's, the session with its id belongs to its user and its device.
  pub validate_iff :
      (p : Payload) (now : ℕ) (db : Db)
      → ((validate mongo p now db).0 ≡ ok (auth_user p)) ↔ (
          ((u : User) × (first (has_id p.sub) db.users ≡ some u))
          × ((p.role ≡ admin) ⊎ HasSession p db.sessions))
  unfolding validate
  validate_iff p now db =
      let find = mongo.find_one_lem User (has_id p.sub) db.users in
      let (to, from) = check_session_iff p db in
      elim (Option-cases (first (has_id p.sub) db.users)) [
        | inl missing ↦ (λ h. absurd (ground arith), λ h. absurd (ground arith))
        | inr (u, found) ↦ elim (Bool-cases (is_admin p.role)) [
          | inl privileged ↦ (λ h. ((u, found), inl (ground arith)), λ h. ground arith)
          | inr plain ↦ (
            λ h. ((u, found), inr (to (ground arith))),
            λ h. ground (arith, validate_session p db h.1 plain),
          )
        ]
      ]

  pub validate-is_ok :
      (p : Payload) (now : ℕ) (db : Db)
      → is_ok (validate mongo p now db).0 ≡ true
      → (validate mongo p now db).0 ≡ ok (auth_user p)
  unfolding validate
  validate-is_ok p now db h = ground arith

  -- Without a session of its user and device, a token that is no admin's is refused.
  validate_refused :
      (p : Payload) (now : ℕ) (db : Db)
      → p.role ≡ user
      → ¬ HasSession p db.sessions
      → is_ok (validate mongo p now db).0 ≡ false
  validate_refused p now db plain without = elim (Bool-cases (is_ok (validate mongo p now db).0)) [
    | inl passed ↦ elim ((validate_iff p now db).0 (validate-is_ok p now db passed)).1 [
      | inl privileged ↦ absurd (ground arith)
      | inr has ↦ absurd (without has)
    ]
    | inr refused ↦ refused
  ]

  check_approved_iff :
      (a : AuthUser) (u : User)
      → (check_approved mongo a u ≡ ok tt)
        ↔ ((u.status ≡ approved) × (u.active_device_id ≡ some a.device_id) × (a.device_id ≢ ""))
  unfolding check_approved
  check_approved_iff a u = elim (Option-cases u.active_device_id) [
    | inl nothing ↦ ground arith
    | inr (d, is) ↦ ground (arith, eq_iff d "", eq_iff d a.device_id, eq_iff a.device_id "")
  ]

  -- `ApprovedGuard` lets the user of a request through exactly when that user is stored and one of
  -- these is so: the token says "admin"; the stored user is an admin; or the stored user is
  -- approved, with the token's device, whose name is not empty, as the active one.
  pub approved_guard_iff :
      (a : AuthUser) (db : Db)
      → (approved_guard mongo (some a) db ≡ ok tt) ↔ (
          (u : User) × (first (has_id a.user_id) db.users ≡ some u)
          × ((a.role ≡ admin)
              ⊎ (u.role ≡ admin)
              ⊎ ((u.status ≡ approved)
                  × (u.active_device_id ≡ some a.device_id)
                  × (a.device_id ≢ ""))))
  unfolding approved_guard
  approved_guard_iff a db =
      let find = mongo.find_one_lem User (has_id a.user_id) db.users in
      elim (Option-cases (first (has_id a.user_id) db.users)) [
        | inl missing ↦ (λ h. absurd (ground arith), λ h. absurd (ground arith))
        | inr (u, found) ↦ (
          λ h. (u, found, ground (arith, check_approved_iff a u)),
          λ (v, found', h). ground (arith, check_approved_iff a v),
        )
      ]

-- The one session of a user is the one that any session id of the user leads to.
first-of_single_eq :
    (p q : Session → Bool) (ss : List Session) (s t : Session)
    → select p ss ≡ t ∷ []
    → first q ss ≡ some s
    → p s ≡ true
    → s ≡ t
first-of_single_eq p q [] s t one found own = cc
first-of_single_eq p q (x ∷ ss) s t one found own = elim (Bool-cases (p x)) [
  | inl hit ↦ elim (Bool-cases (q x)) [
    | inl here ↦ ground arith
    | inr past ↦ absurd (ground (arith, first-any p q ss s))
  ]
  | inr miss ↦ ground (arith, first-of_single_eq p q ss s t)
]

first-of_absent :
    (p q : Session → Bool) (ss : List Session) (s : Session)
    → any p ss ≡ false
    → first q ss ≡ some s
    → p s ≡ false
first-of_absent p q [] s none_there found = cc
first-of_absent p q (x ∷ ss) s none_there found = ground (arith, first-of_absent p q ss s)

pub on_ok-ok :
    {A B : Type 0} (db : Db) (r : Result A) (f : A → Result B × Db) {b : B}
    → (on_ok db r f).0 ≡ ok b
    → (a : A) × (r ≡ ok a) × (on_ok db r f ≡ f a)
on_ok-ok db (ok a) f h = (a, refl, refl)
on_ok-ok db (err e) f h = cc

module _ (mongo : Mongo) (crypto : Crypto) where
  -- Right after a login of a user who is not an admin, a token of the user is accepted only if it
  -- says "admin", as a token from before the loss of that role does, or if it has the session id
  -- and the device of this login.
  pub login_supersedes :
      (dto : LoginDto) (c : Call) (db : Db) (r : LoginResponse) (p : Payload) (now : ℕ)
      → (login mongo crypto dto c db).0 ≡ ok r
      → r.user.role ≡ user
      → p.sub ≡ r.user.id
      → is_ok (validate mongo p now (login mongo crypto dto c db).1).0 ≡ true
      → (p.role ≡ admin) ⊎ ((p.sid ≡ c.uuid) × (p.device_id ≡ dto.device_id))
  login_supersedes dto c db r p now h plain same passed =
      let db' = (login mongo crypto dto c db).1 in
      let one = login-single mongo crypto dto c db r h plain in
      let new =
        session_of r.user.id dto.device_id c.uuid (stored_hash mongo crypto dto c r.user) c.later in
      elim ((validate_iff mongo p now db').0 (validate-is_ok mongo p now db' passed)).1 [
        | inl privileged ↦ inl privileged
        | inr (s, found, user_is, device_is) ↦
            let own = (eq_iff s.user_id r.user.id).1 (user_is ∙ same) in
            let it =
              first-of_single_eq (of_user r.user.id) (has_session_id p.sid) db'.sessions s new one
                found own in
            inr (
              sym (
                  (eq_iff c.uuid p.sid).0 (
                    ap (has_session_id p.sid) (sym it)
                    ∙ first-passes (has_session_id p.sid) db'.sessions s found)),
              sym device_is ∙ ap (λ (t : Session). t.device_id) it,
            )
      ]

  delete_session-absent :
      (u d : String) (db : Db)
      → d ≢ ""
      → any (of_device u d) (delete_session mongo u d db).sessions ≡ false
  delete_session-absent u d db named = ground (
    arith,
    eq_iff d "",
    mongo.delete_many_lem Session (of_device u d) db.sessions,
    any-reject_self (of_device u d) db.sessions,
  )

  leave-sessions :
      (u d : String) (db : Db) (v : User)
      → (leave mongo crypto u d db v).1.sessions ≡ (delete_session mongo u d db).sessions
  unfolding leave
  leave-sessions u d db v = ground arith

  logout-leave :
      (u d : String) (db : Db)
      → (logout mongo crypto u d db).0 ≡ ok tt
      → (v : User) × (logout mongo crypto u d db ≡ leave mongo crypto u d db v)
  unfolding logout
  logout-leave u d db h =
      let (v, _, left) =
        on_ok-ok db (admit_logout mongo crypto u d db) (leave mongo crypto u d db) h in
      (v, left)

  -- After a logout, a token for the same user and device that is no admin's is refused, whatever
  -- session id it has.
  pub logout_ends :
      (u d : String) (db : Db) (p : Payload) (now : ℕ)
      → (logout mongo crypto u d db).0 ≡ ok tt
      → d ≢ ""
      → p.sub ≡ u
      → p.device_id ≡ d
      → p.role ≡ user
      → is_ok (validate mongo p now (logout mongo crypto u d db).1).0 ≡ false
  logout_ends u d db p now h named same_user same_device token =
      let (v, left) = logout-leave u d db h in
      let db' = (logout mongo crypto u d db).1 in
      let gone : any (of_device u d) db'.sessions ≡ false =
        rw left (rw (leave-sessions u d db v) (delete_session-absent u d db named)) in
      validate_refused mongo p now db' token λ (s, found, user_is, device_is).
        let absent =
          first-of_absent (of_device u d) (has_session_id p.sid) db'.sessions s gone found in
        let a = (eq_iff s.user_id u).1 (user_is ∙ same_user) in
        let b = (eq_iff s.device_id d).1 (device_is ∙ same_device) in ground arith

module _ (mongo : Mongo) where
  -- Exactly those get past the guards of the admin routes, given a token whose signature holds,
  -- whose token says "admin" and who still exist: neither the stored role, nor the stored status,
  -- nor the sessions of the user play a part.
  pub admin_route_iff :
      (p : Payload) (now : ℕ) (db : Db)
      → ((admin_route mongo p now db).0 ≡ ok (auth_user p))
        ↔ ((p.role ≡ admin) × ((u : User) × (first (has_id p.sub) db.users ≡ some u)))
  unfolding admin_route approved_route approved_guard admin_guard validate
  admin_route_iff p now db =
      let find = mongo.find_one_lem User (has_id p.sub) db.users in
      elim (Option-cases (first (has_id p.sub) db.users)) [
        | inl missing ↦ (λ h. absurd (ground arith), λ h. absurd (ground arith))
        | inr (u, found) ↦ elim (Bool-cases (is_admin p.role)) [
          | inl privileged ↦ (λ h. (ground arith, (u, found)), λ h. ground arith)
          | inr plain ↦ (λ h. absurd (ground arith), λ h. absurd (ground arith))
        ]
      ]
