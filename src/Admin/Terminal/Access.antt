-- ===== src/Admin/Terminal/Access.antt =====
-- Whose commands reach the host through the web terminal
-- (backend/src/admin/terminal/terminal.gateway.ts).
use parking_gate_remote.Common.{
  ℕ, String, ◌≡◌, refl, Bool, true, Option, none, some, List, [], ◌∷◌, inl, inr, ◌⊎◌, arith, ap,
  subst,
}
use parking_gate_remote.Common.Assoc.{insert, string_eq}
use parking_gate_remote.Mongo.{Mongo}
use parking_gate_remote.Users.{Db, find_by_id}
use parking_gate_remote.Users.Schema.{User}
use parking_gate_remote.Auth.{is_admin}
use parking_gate_remote.Auth.Tokens.{Payload}
use parking_gate_remote.Admin.Terminal.{
  Terminals, KeyFile, destroy_terminal, cleanup_inactive_sessions,
}
use parking_gate_remote.Admin.Terminal.Gateway.{
  Handshake, token_of, text_token, verified, authenticate_user, authenticate_payload,
  authenticate_token, authenticate, admitted, handle_connection, handle_disconnect,
  handle_terminal_input, handle_terminal_resize, Event, connect, leave_socket, input, resize, exit,
  clean_up, handle, after,
}
use parking_gate_remote.Admin.Terminal.Kept.{
  OnlyUsers, OnlyUsers-weaken, create_terminal-OnlyUsers, destroy_terminal-OnlyUsers,
  cleanup_entries-OnlyUsers, handle_terminal_input-OnlyUsers, handle_terminal_resize-OnlyUsers,
}

module _ (mongo : Mongo) (verify : String → String → Option Payload) where
  -- An admin with a user id has connected: the socket brought a token that the secret verifies, the
  -- token and the stored user were both of an admin.
  pub record Connected (user_id : String) (h : Handshake) (db : Db) (secret : Option String)
      : Type 0 where
    pub token : String
    pub payload : Payload
    pub stored : User
    pub brought : text_token (token_of h) ≡ some token
    pub checked : verified mongo verify secret token ≡ some payload
    pub named : payload.sub ≡ user_id
    pub found : find_by_id mongo user_id db ≡ some stored
    pub token_admin : is_admin payload.role ≡ true
    pub stored_admin : is_admin stored.role ≡ true

  -- Such a connection is among what has happened.
  pub data Vouched (user_id : String) : List Event → Type 0 where
    here :
        {id : String} {h : Handshake} {db : Db} {secret : Option String} {f : KeyFile}
        {spawns : List String → Bool} {now : ℕ} {es : List Event}
        → Connected user_id h db secret
        → Vouched user_id (connect id h db secret f spawns now ∷ es)
    there : {e : Event} {es : List Event} → Vouched user_id es → Vouched user_id (e ∷ es)

module _ (mongo : Mongo) (verify : String → String → Option Payload) where
  authenticate_user-admin :
      (q p : Payload) (o : Option User)
      → authenticate_user mongo verify q o ≡ inl p
      → (u : User) × (o ≡ some u) × (q ≡ p) × (is_admin q.role ≡ true) × (is_admin u.role ≡ true)
  authenticate_user-admin q p none e = ground (arith, e)
  authenticate_user-admin q p (some u) e =
      (u, refl, ground (arith, e), ground (arith, e), ground (arith, e))

  authenticate_payload-admin :
      (db : Db) (p : Payload) (o : Option Payload)
      → authenticate_payload mongo verify db o ≡ inl p
      → (o ≡ some p)
        × (is_admin p.role ≡ true)
        × (u : User) × (find_by_id mongo p.sub db ≡ some u)
        × (is_admin u.role ≡ true)
  authenticate_payload-admin db p none e = ground (arith, e)
  authenticate_payload-admin db p (some q) e =
      let (u, k, same, by_token, by_user) =
        authenticate_user-admin q p (find_by_id mongo q.sub db) e in
      (
        ap some same,
        subst (λ x. is_admin x.role ≡ true) same by_token,
        u,
        subst (λ x. find_by_id mongo x.sub db ≡ some u) same k,
        by_user,
      )

  authenticate_token-Connected :
      (secret : Option String) (h : Handshake) (db : Db) (p : Payload) (o : Option String)
      → text_token (token_of h) ≡ o
      → authenticate_token mongo verify secret db o ≡ inl p
      → Connected mongo verify p.sub h db secret
  authenticate_token-Connected secret h db p none k e = ground (arith, e)
  authenticate_token-Connected secret h db p (some token) k e =
      let (checked, by_token, u, found, by_user) =
        authenticate_payload-admin db p (verified mongo verify secret token) e in
      record {
        token = token;
        payload = p;
        stored = u;
        brought = k;
        checked = checked;
        named = refl;
        found = found;
        token_admin = by_token;
        stored_admin = by_user;
      }

  authenticate-Connected :
      (secret : Option String) (h : Handshake) (db : Db) (p : Payload)
      → authenticate mongo verify secret h db ≡ inl p
      → Connected mongo verify p.sub h db secret
  unfolding authenticate
  authenticate-Connected secret h db p =
      authenticate_token-Connected secret h db p (text_token (token_of h)) refl

  admitted-OnlyUsers :
      (P : String → Type 0) (f : KeyFile) (spawns : List String → Bool) (id : String) (now : ℕ)
      (t : Terminals) (r : Payload ⊎ String)
      → ((p : Payload) → r ≡ inl p → P p.sub)
      → OnlyUsers P t
      → OnlyUsers P (admitted mongo verify f spawns id now t r).1
  admitted-OnlyUsers P f spawns id now t (inr message) g k = k
  admitted-OnlyUsers P f spawns id now t (inl p) g k =
      create_terminal-OnlyUsers P f spawns id p.sub now
        (record t {
          clients = insert id (record { user_id = p.sub; user_role = p.role }) t.clients;
        })
        (g p refl) k

  -- The users of the sessions, and those whose input or sizes have reached a program, are vouched for.
  abbrev pub IsGuarded : List Event → Terminals → Type 0
  IsGuarded es t = OnlyUsers (λ u. Vouched mongo verify u es) t

  kept : (e : Event) (es : List Event) (t : Terminals) → IsGuarded es t → IsGuarded (e ∷ es) t
  kept e es =
      OnlyUsers-weaken (λ u. Vouched mongo verify u es) (λ u. Vouched mongo verify u (e ∷ es))
        (λ u. there)

  handle-IsGuarded :
      (e : Event) (es : List Event) (t : Terminals)
      → IsGuarded es t
      → IsGuarded (e ∷ es) (handle mongo verify e t)
  unfolding handle_connection handle_disconnect cleanup_inactive_sessions
  handle-IsGuarded (connect id h db secret f spawns now) es t k =
      admitted-OnlyUsers (λ u. Vouched mongo verify u (connect id h db secret f spawns now ∷ es)) f
        spawns id now t (authenticate mongo verify secret h db)
        (λ p e. here (authenticate-Connected secret h db p e))
        (kept (connect id h db secret f spawns now) es t k)
  handle-IsGuarded (leave_socket id unkillable) es t k =
      kept (leave_socket id unkillable) es (destroy_terminal unkillable id t)
        (destroy_terminal-OnlyUsers (λ u. Vouched mongo verify u es) unkillable id t k)
  handle-IsGuarded (input broken id field now) es t k =
      kept (input broken id field now) es (handle_terminal_input broken id field now t).1
        (handle_terminal_input-OnlyUsers (λ u. Vouched mongo verify u es) broken id field now t k)
  handle-IsGuarded (resize broken id cols rows now) es t k =
      kept (resize broken id cols rows now) es (handle_terminal_resize broken id cols rows now t).1
        (handle_terminal_resize-OnlyUsers (λ u. Vouched mongo verify u es) broken id cols rows now t
          k)
  handle-IsGuarded (exit id unkillable) es t k =
      kept (exit id unkillable) es (destroy_terminal unkillable id t)
        (destroy_terminal-OnlyUsers (λ u. Vouched mongo verify u es) unkillable id t k)
  handle-IsGuarded (clean_up unkillable max_minutes now) es t k =
      kept (clean_up unkillable max_minutes now) es
        (cleanup_inactive_sessions unkillable max_minutes now t)
        (cleanup_entries-OnlyUsers (λ u. Vouched mongo verify u es) unkillable max_minutes now
          t.sessions t k)

  -- Whatever happens at the gateway and in whatever order: the user of each terminal session, and
  -- each user whose input or size has reached the program of a session, is one for whom a socket
  -- had connected with a token that the secret verifies, names that user and says admin, while the
  -- stored user was an admin too.
  pub after-IsGuarded : (es : List Event) → IsGuarded es (after mongo verify es)
  after-IsGuarded [] = (tt, tt, tt)
  after-IsGuarded (e ∷ es) = handle-IsGuarded e es (after mongo verify es) (after-IsGuarded es)
