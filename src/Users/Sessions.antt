-- ===== src/Users/Sessions.antt =====
-- What the calls of backend/src/users/users.service.ts leave in the two collections.
use parking_gate_remote.Common.{
  ℕ, String, ◌≡◌, refl, Bool, true, false, none, some, List, [], ◌∷◌, ◌++◌, ◌==◌, arith, eq_iff,
  any, select, reject, first, update_first, any-append, select-append, select-reject, append-nil,
  length, ◌≤◌, ◌<◌, ◌⊎◌, inl, inr, Bool-cases,
}
use parking_gate_remote.Mongo.{Mongo}
use parking_gate_remote.Users.Schema.{Session}
use parking_gate_remote.Users.{Db, of_user, of_device, has_session_id, create_session}

abbrev pub session_of : String → String → String → String → ℕ → Session
session_of user_id device_id sid hash now = record {
  user_id = user_id;
  device_id = device_id;
  session_id = sid;
  refresh_token_hash = hash;
  last_active_at = now;
}

of_device-reject :
    (u d : String) (ss : List Session) → any (of_device u d) (reject (of_user u) ss) ≡ false
of_device-reject u d [] = refl
of_device-reject u d (s ∷ ss) = ground (arith, of_device-reject u d ss)

select-of_user-reject :
    (u : String) (ss : List Session) → select (of_user u) (reject (of_user u) ss) ≡ []
select-of_user-reject u [] = refl
select-of_user-reject u (s ∷ ss) = ground (arith, select-of_user-reject u ss)

-- At most one element passes.
abbrev pub AtMostOnce : (Session → Bool) → List Session → Type 0
AtMostOnce p ss = length (select p ss) ≤ 1

pub any-of_none :
    (p : Session → Bool) (ss : List Session) → length (select p ss) ≤ 0 → any p ss ≡ false
any-of_none p [] h = refl
any-of_none p (s ∷ ss) h = ground (arith, any-of_none p ss)

pub first-any :
    (p q : Session → Bool) (ss : List Session) (s : Session)
    → first q ss ≡ some s
    → p s ≡ true
    → 0 < length (select p ss)
first-any p q [] s h e = cc
first-any p q (x ∷ ss) s h e = ground (arith, first-any p q ss s)

module _ (p : Session → Bool) (s t : Session) where
  update_first-append :
      (ss : List Session)
      → any p ss ≡ false
      → p s ≡ true
      → update_first p (λ _. t) (ss ++ s ∷ []) ≡ ss ++ t ∷ []
  update_first-append [] h e = ground arith
  update_first-append (x ∷ ss) h e = ground (arith, update_first-append ss)

  update_first-again :
      (ss : List Session)
      → p s ≡ true
      → update_first p (λ _. t) (update_first p (λ _. s) ss) ≡ update_first p (λ _. t) ss
  update_first-again [] e = refl
  update_first-again (x ∷ ss) e = ground (arith, update_first-again ss e)

module _ (p q : Session → Bool) (t : Session) where
  first-update_first :
      (ss : List Session)
      → any p ss ≡ true
      → any q ss ≡ false
      → q t ≡ true
      → first q (update_first p (λ _. t) ss) ≡ some t
  first-update_first [] h k e = cc
  first-update_first (x ∷ ss) h k e = ground (arith, first-update_first ss)

  first-append :
      (ss : List Session) → any q ss ≡ false → q t ≡ true → first q (ss ++ t ∷ []) ≡ some t
  first-append [] k e = ground arith
  first-append (x ∷ ss) k e = ground (arith, first-append ss)

  -- The one element that passes `q` is the one that `p` finds, so replacing it leaves none.
  any-update_first :
      (ss : List Session) (s : Session)
      → first q ss ≡ some s
      → p s ≡ true
      → AtMostOnce p ss
      → AtMostOnce q ss
      → q t ≡ false
      → any q (update_first p (λ _. t) ss) ≡ false
  any-update_first [] s h e kp kq n = cc
  any-update_first (x ∷ ss) s h e kp kq n = elim (Bool-cases (p x)) [
    | inl hit ↦ elim (Bool-cases (q x)) [
      | inl own ↦ ground (arith, any-of_none q ss)
      | inr other ↦ absurd (ground (arith, first-any p q ss s))
    ]
    | inr miss ↦ elim (Bool-cases (q x)) [
      | inl own ↦ ground arith
      | inr other ↦ ground (arith, any-update_first ss s)
    ]
  ]

any-update_first_same :
    (p : Session → Bool) (s : Session) (ss : List Session)
    → p s ≡ true
    → any p ss ≡ true
    → any p (update_first p (λ _. s) ss) ≡ true
any-update_first_same p s [] e h = cc
any-update_first_same p s (x ∷ ss) e h = ground (arith, any-update_first_same p s ss e)

any-of_first :
    (p q : Session → Bool) (ss : List Session) (s : Session)
    → first q ss ≡ some s
    → p s ≡ true
    → any p ss ≡ true
any-of_first p q [] s h e = cc
any-of_first p q (x ∷ ss) s h e = ground (arith, any-of_first p q ss s)

select-reject_other :
    (u v : String) (ss : List Session)
    → (u == v) ≡ false
    → select (of_user v) (reject (of_user u) ss) ≡ select (of_user v) ss
select-reject_other u v [] n = refl
select-reject_other u v (s ∷ ss) n =
    ground (arith, select-reject_other u v ss n, eq_iff u v, eq_iff s.user_id u, eq_iff s.user_id v)

pub any-reject_self : (p : Session → Bool) (ss : List Session) → any p (reject p ss) ≡ false
any-reject_self p [] = refl
any-reject_self p (s ∷ ss) = ground (arith, any-reject_self p ss)

pub any-reject :
    (p q : Session → Bool) (ss : List Session) → any p ss ≡ false → any p (reject q ss) ≡ false
any-reject p q [] h = refl
any-reject p q (s ∷ ss) h = ground (arith, any-reject p q ss)

pub first-of_none : (p : Session → Bool) (ss : List Session) → any p ss ≡ false → first p ss ≡ none
first-of_none p [] h = refl
first-of_none p (s ∷ ss) h = ground (arith, first-of_none p ss)

module _ (mongo : Mongo) (u d sid hash : String) where
  -- The sessions after `createSession`, whether the device has one or not.
  create_session-cases :
      (now : ℕ) (db : Db)
      → ((any (of_device u d) db.sessions ≡ true)
          × ((create_session mongo u d sid hash now db).sessions
              ≡ update_first (of_device u d) (λ _. session_of u d sid hash now) db.sessions))
        ⊎ ((any (of_device u d) db.sessions ≡ false)
            × ((create_session mongo u d sid hash now db).sessions
                ≡ db.sessions ++ session_of u d sid hash now ∷ []))
  create_session-cases now db =
      let s = session_of u d sid hash now in
      elim (Bool-cases (any (of_device u d) db.sessions)) [
        | inl h ↦ inl (h, mongo.upsert-update Session (of_device u d) (λ _. s) s db.sessions h)
        | inr h ↦ inr (h, mongo.upsert-insert Session (of_device u d) (λ _. s) s db.sessions h)
      ]

  own_device : (now : ℕ) → of_device u d (session_of u d sid hash now) ≡ true
  own_device now = ground (arith, eq_iff u u, eq_iff d d)

  own_session_id : (now : ℕ) → has_session_id sid (session_of u d sid hash now) ≡ true
  own_session_id now = ground (arith, eq_iff sid sid)

  -- Storing a session twice, as `login` and `refresh` do, leaves what storing it last leaves.
  pub create_session_twice :
      (now later : ℕ) (db db' : Db)
      → db'.sessions ≡ (create_session mongo u d sid hash now db).sessions
      → (create_session mongo u d sid hash later db').sessions
        ≡ (create_session mongo u d sid hash later db).sessions
  create_session_twice now later db db' e = elim (create_session-cases now db) [
    | inl (h, is) ↦
        let s = session_of u d sid hash now in
        let t = session_of u d sid hash later in
        ground (
          arith,
          create_session-cases later db,
          create_session-cases later db',
          update_first-again (of_device u d) s t db.sessions (own_device now),
          any-update_first_same (of_device u d) s db.sessions (own_device now) h,
        )
    | inr (h, is) ↦
        let s = session_of u d sid hash now in
        let t = session_of u d sid hash later in
        ground (
          arith,
          create_session-cases later db,
          create_session-cases later db',
          update_first-append (of_device u d) s t db.sessions h (own_device now),
          any-append (of_device u d) db.sessions (s ∷ []),
          own_device now,
        )
  ]

  -- A session is found under a session id that was not in use.
  pub create_session-found :
      (now : ℕ) (db : Db)
      → any (has_session_id sid) db.sessions ≡ false
      → first (has_session_id sid) (create_session mongo u d sid hash now db).sessions
        ≡ some (session_of u d sid hash now)
  create_session-found now db fresh =
      let t = session_of u d sid hash now in
      ground (
        arith,
        create_session-cases now db,
        first-update_first (of_device u d) (has_session_id sid) t db.sessions,
        first-append (of_device u d) (has_session_id sid) t db.sessions,
        own_session_id now,
      )

  -- Storing a session for a device under another id takes the session id of that device out of
  -- use.
  pub create_session-replaces :
      (now : ℕ) (db : Db) (old : String) (s : Session)
      → first (has_session_id old) db.sessions ≡ some s
      → of_device u d s ≡ true
      → AtMostOnce (of_device u d) db.sessions
      → AtMostOnce (has_session_id old) db.sessions
      → (sid == old) ≡ false
      → any (has_session_id old) (create_session mongo u d sid hash now db).sessions ≡ false
  create_session-replaces now db old s h e kp kq n =
      let t = session_of u d sid hash now in
      ground (
        arith,
        create_session-cases now db,
        any-update_first (of_device u d) (has_session_id old) t db.sessions s h e kp kq n,
        any-of_first (of_device u d) (has_session_id old) db.sessions s h e,
      )

  -- On a user without sessions the new session is the only one, and other users keep theirs.
  pub create_session-single :
      (now : ℕ) (db db' : Db)
      → db'.sessions ≡ reject (of_user u) db.sessions
      → (select (of_user u) (create_session mongo u d sid hash now db').sessions
          ≡ session_of u d sid hash now ∷ [])
        × ((v : String)
            → (u == v) ≡ false
            → select (of_user v) (create_session mongo u d sid hash now db').sessions
              ≡ select (of_user v) db.sessions)
  create_session-single now db db' e =
      let t = session_of u d sid hash now in
      (
        ground (
          arith,
          create_session-cases now db',
          of_device-reject u d db.sessions,
          select-append (of_user u) (reject (of_user u) db.sessions) (t ∷ []),
          select-reject (of_user u) db.sessions,
          eq_iff u u,
        ),
        λ v other. ground (
          arith,
          create_session-cases now db',
          of_device-reject u d db.sessions,
          select-append (of_user v) (reject (of_user u) db.sessions) (t ∷ []),
          select-reject_other u v db.sessions other,
          append-nil (select (of_user v) db.sessions),
        ),
      )
