-- ===== src/Auth/Login.antt =====
-- Who may log in, and what a login leaves (backend/src/auth/auth.service.ts, login).
use parking_gate_remote.Common.{
  String, ◌≡◌, refl, ◌⊎◌, ◌↔◌, inl, inr, true, false, none, some, [], ◌∷◌, ◌==◌, arith, eq_iff,
  select, first, if◌then◌else◌, Option-cases,
}
use parking_gate_remote.Common.Http.{ok}
use parking_gate_remote.Mongo.{Mongo}
use parking_gate_remote.Users.{
  Db, has_email, of_user, create_session, clear_all_sessions, update_user,
}
use parking_gate_remote.Users.Schema.{User, Session, approved, user, admin}
use parking_gate_remote.Users.Sessions.{session_of, create_session_twice, create_session-single}
use parking_gate_remote.Auth.Tokens.{Crypto}
use parking_gate_remote.Auth.{
  Call, LoginDto, LoginResponse, is_admin, login_status, login_device, admit, payload_of, enter,
  login,
}

-- An admin, a user with no active device, or one whose active device is this one.
abbrev pub MayUse : User → String → Type 0
MayUse u device_id =
    (u.role ≡ admin)
    ⊎ (u.active_device_id ≡ none)
    ⊎ (u.active_device_id ≡ some "")
    ⊎ (u.active_device_id ≡ some device_id)

login_device-ok :
    (device_id : String) (u v : User)
    → (login_device device_id u ≡ ok v) ↔ ((u ≡ v) × MayUse u device_id)
unfolding login_device
login_device-ok device_id u v = elim (Option-cases u.active_device_id) [
  | inl nothing ↦ ground arith
  | inr (d, is) ↦ ground (arith, eq_iff d "", eq_iff d device_id)
]

module _ (mongo : Mongo) (crypto : Crypto) where
  -- A login is let through as a given user exactly when that user is the first with the email, the
  -- password is accepted against the stored hash, the status is "approved", and the user is an
  -- admin, has no active device, or asks from the active device.
  pub admit_iff :
      (dto : LoginDto) (db : Db) (u : User)
      → (admit mongo crypto dto db ≡ ok u) ↔ (
          (first (has_email dto.email) db.users ≡ some u)
          × (crypto.compare dto.password u.password_hash ≡ true)
          × (u.status ≡ approved)
          × MayUse u dto.device_id)
  unfolding admit login_status
  admit_iff dto db u = elim (Option-cases (first (has_email dto.email) db.users)) [
    | inl none_found ↦ ground (arith, mongo.find_one_lem User (has_email dto.email) db.users)
    | inr (v, found) ↦ ground (
      arith,
      mongo.find_one_lem User (has_email dto.email) db.users,
      login_device-ok dto.device_id v u,
    )
  ]

  abbrev pub stored_hash : LoginDto → Call → User → String
  stored_hash dto c u =
      crypto.hash c.salt
        (crypto.sign_refresh c.now (payload_of mongo crypto u dto.device_id c.uuid))

  -- A login that succeeds is the entry of the user whom it answers with.
  pub login-ok :
      (dto : LoginDto) (c : Call) (db : Db) (r : LoginResponse)
      → (login mongo crypto dto c db).0 ≡ ok r
      → (admit mongo crypto dto db ≡ ok r.user)
        × (login mongo crypto dto c db ≡ enter mongo crypto dto c db r.user)
        × (r.refresh_token
            ≡ crypto.sign_refresh c.now (payload_of mongo crypto r.user dto.device_id c.uuid))
  unfolding login enter
  login-ok dto c db r h = ground arith

  pub enter-sessions :
      (dto : LoginDto) (c : Call) (db : Db) (u : User)
      → (enter mongo crypto dto c db u).1.sessions
        ≡ (create_session mongo u.id dto.device_id c.uuid
            (stored_hash dto c u)
            c.later
            (if is_admin u.role then db else clear_all_sessions mongo u.id db)).sessions
  unfolding enter
  enter-sessions dto c db u =
      create_session_twice mongo u.id dto.device_id c.uuid (stored_hash dto c u) c.now c.later
        (if is_admin u.role then db else clear_all_sessions mongo u.id db)
        (set_active dto c u (
          create_session mongo u.id dto.device_id c.uuid (stored_hash dto c u) c.now
            (if is_admin u.role then db else clear_all_sessions mongo u.id db)))
        refl
    where
      set_active : LoginDto → Call → User → Db → Db
      set_active dto c u db =
          update_user mongo u.id
            (λ v. record v {
              active_device_id = some dto.device_id;
              active_session_id = some c.uuid;
              refresh_token_hash = some (stored_hash dto c u);
            })
            db

  pub login-single :
      (dto : LoginDto) (c : Call) (db : Db) (r : LoginResponse)
      → (login mongo crypto dto c db).0 ≡ ok r
      → r.user.role ≡ user
      → select (of_user r.user.id) (login mongo crypto dto c db).1.sessions
        ≡ session_of r.user.id dto.device_id c.uuid (stored_hash dto c r.user) c.later ∷ []
  login-single dto c db r h plain =
      let (_, entered, _) = login-ok dto c db r h in
      let (single, others) =
        create_session-single mongo r.user.id dto.device_id c.uuid (stored_hash dto c r.user)
          c.later db (clear_all_sessions mongo r.user.id db)
          (mongo.delete_many_lem Session (of_user r.user.id) db.sessions) in
      ground (arith, enter-sessions dto c db r.user)

  -- After a successful login of a user who is not an admin, the session of this login is the only
  -- one of the user; the sessions of another user are as they were.
  pub login-single_session :
      (dto : LoginDto) (c : Call) (db : Db) (r : LoginResponse) (other : String)
      → (login mongo crypto dto c db).0 ≡ ok r
      → r.user.role ≡ user
      → (r.user.id == other) ≡ false
      → let ss = (login mongo crypto dto c db).1.sessions in
        (select (of_user r.user.id) ss
          ≡ session_of r.user.id dto.device_id c.uuid (stored_hash dto c r.user) c.later ∷ [])
        × (select (of_user other) ss ≡ select (of_user other) db.sessions)
  login-single_session dto c db r other h plain n =
      let (_, entered, _) = login-ok dto c db r h in
      let (single, others) =
        create_session-single mongo r.user.id dto.device_id c.uuid (stored_hash dto c r.user)
          c.later db (clear_all_sessions mongo r.user.id db)
          (mongo.delete_many_lem Session (of_user r.user.id) db.sessions) in
      let ss = enter-sessions dto c db r.user in (ground arith, ground (arith, others other n))
