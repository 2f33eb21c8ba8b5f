-- ===== src/Auth/Rotation.antt =====
-- What a refresh token is good for (backend/src/auth/auth.service.ts, login and refresh).
use parking_gate_remote.Common.{
  ◌+◌, ◌≤◌, String, ◌≡◌, refl, ap, sym, subst, ◌∙◌, inl, inr, true, false, none, some, ◌==◌, arith,
  eq_iff, any, first, Bool-cases, Option-cases,
}
use parking_gate_remote.Common.Http.{ok, is_ok}
use parking_gate_remote.Mongo.{Mongo}
use parking_gate_remote.Users.{
  Db, of_user, of_device, has_session_id, create_session, clear_all_sessions, update_user,
}
use parking_gate_remote.Users.Schema.{User, Session}
use parking_gate_remote.Users.Sessions.{
  session_of, AtMostOnce, any-reject, first-of_none, create_session_twice, create_session-found,
  create_session-replaces,
}
use parking_gate_remote.Auth.Tokens.{Payload, Crypto}
use parking_gate_remote.Auth.{
  Call, LoginDto, LoginResponse, is_admin, payload_of, enter, login, admit_refresh, rotate, refresh,
}
use parking_gate_remote.Auth.Login.{stored_hash, login-ok, enter-sessions}

module _ (mongo : Mongo) (crypto : Crypto) where
  -- The session that login leaves under the new session id.
  login-found :
      (dto : LoginDto) (c : Call) (db : Db) (u : User)
      → any (has_session_id c.uuid) db.sessions ≡ false
      → first (has_session_id c.uuid) (enter mongo crypto dto c db u).1.sessions
        ≡ some (session_of u.id dto.device_id c.uuid (stored_hash mongo crypto dto c u) c.later)
  login-found dto c db u fresh = elim (Bool-cases (is_admin u.role)) [
    | inl privileged ↦ ground (
      arith,
      enter-sessions mongo crypto dto c db u,
      create_session-found mongo u.id dto.device_id c.uuid (stored_hash mongo crypto dto c u)
          c.later db fresh,
    )
    | inr plain ↦ ground (
      arith,
      enter-sessions mongo crypto dto c db u,
      mongo.delete_many_lem Session (of_user u.id) db.sessions,
      any-reject (has_session_id c.uuid) (of_user u.id) db.sessions fresh,
      create_session-found mongo u.id dto.device_id c.uuid (stored_hash mongo crypto dto c u)
          c.later (clear_all_sessions mongo u.id db),
    )
  ]

  -- As long as it has not expired and no other call has come in between, the refresh token of a
  -- successful login under a session id that was not in use is accepted, for the user, the
  -- device and the session of the login.
  pub login-admit_refresh :
      (dto : LoginDto) (c k : Call) (db : Db) (r : LoginResponse)
      → (login mongo crypto dto c db).0 ≡ ok r
      → any (has_session_id c.uuid) db.sessions ≡ false
      → c.now ≤ k.now
      → k.now ≤ c.now + crypto.refresh_life
      → admit_refresh mongo crypto r.refresh_token k (login mongo crypto dto c db).1
        ≡ ok (payload_of mongo crypto r.user dto.device_id c.uuid)
  unfolding admit_refresh
  login-admit_refresh dto c k db r h fresh from until =
      let p = payload_of mongo crypto r.user dto.device_id c.uuid in
      let (_, entered, token) = login-ok mongo crypto dto c db r h in
      let db' = (login mongo crypto dto c db).1 in
      ground (
        arith,
        login-found dto c db r.user fresh,
        mongo.find_one_lem Session (has_session_id c.uuid) db'.sessions,
        crypto.verify-sign c.now k.now p from until,
        crypto.compare-hash c.salt (crypto.sign_refresh c.now p),
        eq_iff r.user.id r.user.id,
        eq_iff dto.device_id dto.device_id,
      )

  -- What the tests of `refresh` establish.
  admit_refresh-ok :
      (token : String) (c : Call) (db : Db) (p : Payload)
      → admit_refresh mongo crypto token c db ≡ ok p
      → (crypto.verify_refresh c.now token ≡ some p)
        × ((s : Session) × (first (has_session_id p.sid) db.sessions ≡ some s)
            × (of_device p.sub p.device_id s ≡ true))
  unfolding admit_refresh
  admit_refresh-ok token c db p h = elim (Option-cases (crypto.verify_refresh c.now token)) [
    | inl refused ↦ absurd (ground arith)
    | inr (q, accepted) ↦
        let find = mongo.find_one_lem Session (has_session_id q.sid) db.sessions in
        elim (Option-cases (first (has_session_id q.sid) db.sessions)) [
          | inl missing ↦ absurd (ground arith)
          | inr (s, found) ↦
              let same : q ≡ p = ground arith in
              let device : of_device q.sub q.device_id s ≡ true = ground arith in
              (
                accepted ∙ ap some same,
                (
                  s,
                  subst (λ x. first (has_session_id x.sid) db.sessions ≡ some s) same found,
                  subst (λ x. of_device x.sub x.device_id s ≡ true) same device,
                ),
              )
        ]
  ]

  abbrev rotated_hash : Call → Payload → String
  rotated_hash c p = crypto.hash c.salt (
      crypto.sign_refresh c.now
        (record { sub = p.sub; role = p.role; device_id = p.device_id; sid = c.uuid }))

  refresh-rotate :
      (token : String) (c : Call) (db : Db) (p : Payload)
      → admit_refresh mongo crypto token c db ≡ ok p
      → refresh mongo crypto token c db ≡ rotate mongo crypto c db p
  unfolding refresh
  refresh-rotate token c db p h = ground arith

  rotate-sessions :
      (c : Call) (db : Db) (p : Payload)
      → (rotate mongo crypto c db p).1.sessions
        ≡ (create_session mongo p.sub p.device_id c.uuid (rotated_hash c p) c.later db).sessions
  unfolding rotate
  rotate-sessions c db p =
      let db' = create_session mongo p.sub p.device_id c.uuid (rotated_hash c p) c.now db in
      ground (
        arith,
        create_session_twice mongo p.sub p.device_id c.uuid (rotated_hash c p) c.now c.later db db'
            refl,
        create_session_twice mongo p.sub p.device_id c.uuid (rotated_hash c p) c.now c.later db
            (update_user mongo p.sub
              (λ v. record v {
                active_device_id = some p.device_id;
                active_session_id = some c.uuid;
                refresh_token_hash = some (rotated_hash c p);
              })
              db')
            refl,
      )

  -- A token is refused once no session has its session id.
  gone_refused :
      (token : String) (c k : Call) (db : Db) (p : Payload)
      → crypto.verify_refresh c.now token ≡ some p
      → any (has_session_id p.sid) db.sessions ≡ false
      → is_ok (refresh mongo crypto token k db).0 ≡ false
  unfolding refresh admit_refresh
  gone_refused token c k db p accepted gone =
      elim (Option-cases (crypto.verify_refresh k.now token)) [
        | inl expired ↦ ground arith
        | inr (q, again) ↦
            let same : q ≡ p = crypto.verify-same token c.now k.now p q accepted again in
            let missing : first (has_session_id q.sid) db.sessions ≡ none =
              subst (λ x. first (has_session_id x.sid) db.sessions ≡ none) (sym same)
                (first-of_none (has_session_id p.sid) db.sessions gone) in
            ground (arith, mongo.find_one_lem Session (has_session_id q.sid) db.sessions)
      ]

  -- A refresh token is good for one refresh: once it has been used, it is refused by every later
  -- call, as long as the session ids are unique, the device has one session, and no other call
  -- has come in between.
  pub refresh_once :
      (token : String) (c k : Call) (db : Db) (p : Payload)
      → admit_refresh mongo crypto token c db ≡ ok p
      → AtMostOnce (of_device p.sub p.device_id) db.sessions
      → AtMostOnce (has_session_id p.sid) db.sessions
      → (c.uuid == p.sid) ≡ false
      → is_ok (refresh mongo crypto token k (refresh mongo crypto token c db).1).0 ≡ false
  refresh_once token c k db p h device session fresh =
      let (accepted, (s, found, own)) = admit_refresh-ok token c db p h in
      let db' = (refresh mongo crypto token c db).1 in
      let gone : any (has_session_id p.sid) db'.sessions ≡ false = ground (
        arith,
        refresh-rotate token c db p h,
        rotate-sessions c db p,
        create_session-replaces mongo p.sub p.device_id c.uuid (rotated_hash c p) c.later db p.sid s
            found own device session fresh,
      ) in
      gone_refused token c k db' p accepted gone
