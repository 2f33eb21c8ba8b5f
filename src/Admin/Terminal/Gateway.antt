-- ===== src/Admin/Terminal/Gateway.antt =====
-- The sockets of the web terminal: backend/src/admin/terminal/terminal.gateway.ts. The check of a
-- token is a parameter.
use parking_gate_remote.Common.{
  ℕ, suc, inl, inr, ◌⊎◌, String, ℤ, pos, Bool, Option, none, some, List, [], ◌∷◌, ◌==◌, ◌&&◌,
  if◌then◌else◌,
}
use parking_gate_remote.Common.Assoc.{lookup, insert, string_eq}
use parking_gate_remote.Common.Json.{Json, text, truth}
use parking_gate_remote.Mongo.{Mongo}
use parking_gate_remote.Users.{Db, find_by_id}
use parking_gate_remote.Users.Schema.{User}
use parking_gate_remote.Auth.{is_admin}
use parking_gate_remote.Auth.Tokens.{Payload}
use parking_gate_remote.Admin.Terminal.{
  Client, Terminals, nobody, without, KeyFile, create_terminal, write_to_terminal, resize_terminal,
  destroy_terminal, cleanup_inactive_sessions,
}

-- What a socket is opened with.
pub record Handshake : Type 0 where
  pub auth_token : Option Json
  pub query_token : Option Json
  pub authorization : Option String

abbrev pub header_token : Option String → Option Json
header_token none = none
header_token (some s) = some (text (without "Bearer " s))

-- `a || b || c`
abbrev pub token_of : Handshake → Option Json
token_of h =
    if truth h.auth_token
    then h.auth_token
    else if truth h.query_token
    then h.query_token
    else header_token h.authorization

abbrev pub text_token : Option Json → Option String
text_token (some (text s)) = if s == "" then none else some s
text_token _ = none

module _ (mongo : Mongo) (verify : String → String → Option Payload) where
  -- the check of the token; a secret that is missing is thrown and caught with the others
  abbrev pub verified : Option String → String → Option Payload
  verified none token = none
  verified (some secret) token = if secret == "" then none else verify secret token

  -- The tests of `handleConnection`: the admin of the socket, or the message of the error.
  abbrev pub authenticate_user : Payload → Option User → Payload ⊎ String
  authenticate_user p none = inr "User not found"
  authenticate_user p (some u) =
      if is_admin p.role && is_admin u.role then inl p else inr "Admin access required"

  abbrev pub authenticate_payload : Db → Option Payload → Payload ⊎ String
  authenticate_payload db none = inr "Invalid token"
  authenticate_payload db (some p) = authenticate_user p (find_by_id mongo p.sub db)

  abbrev pub authenticate_token : Option String → Db → Option String → Payload ⊎ String
  authenticate_token secret db none = inr "Authentication required"
  authenticate_token secret db (some token) = authenticate_payload db (verified secret token)

  unfoldable pub authenticate : Option String → Handshake → Db → Payload ⊎ String
  authenticate secret h db = authenticate_token secret db (text_token (token_of h))

  -- `handleConnection`; the answer is the error that the socket is closed with.
  abbrev pub admitted :
      KeyFile
      → (List String → Bool)
      → String
      → ℕ
      → Terminals
      → Payload ⊎ String
      → Option String × Terminals
  admitted f spawns id now t (inr message) = (some message, t)
  admitted f spawns id now t (inl p) =
      let known = record t {
        clients = insert id (record { user_id = p.sub; user_role = p.role }) t.clients;
      } in
      let (failed, made) = create_terminal f spawns id p.sub now known in
      (if failed then some "Connection error" else none, made)

  unfoldable pub handle_connection :
      Option String
      → KeyFile
      → (List String → Bool)
      → String
      → Handshake
      → Db
      → ℕ
      → Terminals
      → Option String × Terminals
  handle_connection secret f spawns id h db now t =
      admitted f spawns id now t (authenticate secret h db)

-- `handleDisconnect`
unfoldable pub handle_disconnect : (String → Bool) → String → Terminals → Terminals
handle_disconnect unkillable id t = destroy_terminal unkillable id t

-- the tests of both message handlers: the error, if any
abbrev pub check_client : Option Client → Option String
check_client none = some "Not authenticated"
check_client (some c) =
    if c.user_id == ""
    then some "Not authenticated"
    else if is_admin c.user_role
    then none
    else some "Admin access required"

-- what a handler does after those tests
abbrev pub on_checked :
    Option String → Option String × Terminals → Terminals → Option String × Terminals
on_checked (some message) r t = (some message, t)
on_checked none r t = r

abbrev pub put_input : Bool → String → Option Json → ℕ → Terminals → Option String × Terminals
put_input broken id (some (text s)) now t = (none, write_to_terminal broken id s now t)
put_input broken id _ now t = (some "Invalid input format", t)

-- `handleTerminalInput`, with the field `input` of the message
unfoldable pub handle_terminal_input :
    Bool → String → Option Json → ℕ → Terminals → Option String × Terminals
handle_terminal_input broken id field now t =
    on_checked (check_client (lookup id t.clients)) (put_input broken id field now t) t

abbrev pub put_size :
    Bool → String → Option ℤ → Option ℤ → ℕ → Terminals → Option String × Terminals
put_size broken id (some (pos (suc cols))) (some (pos (suc rows))) now t =
    (none, resize_terminal broken id (suc cols) (suc rows) now t)
put_size broken id _ _ now t = (some "Invalid resize dimensions", t)

-- `handleTerminalResize`, with what `Number` makes of the fields, if an integer
unfoldable pub handle_terminal_resize :
    Bool → String → Option ℤ → Option ℤ → ℕ → Terminals → Option String × Terminals
handle_terminal_resize broken id cols rows now t =
    on_checked (check_client (lookup id t.clients)) (put_size broken id cols rows now t) t

-- What happens at the gateway. `connect` stands for the rest of `handleConnection` once the user has
-- been read, with the users of that moment; its `leave_socket` may come before it.
pub data Event : Type 0 where
  connect : String → Handshake → Db → Option String → KeyFile → (List String → Bool) → ℕ → Event
  leave_socket : String → (String → Bool) → Event
  input : Bool → String → Option Json → ℕ → Event
  resize : Bool → String → Option ℤ → Option ℤ → ℕ → Event
  exit : String → (String → Bool) → Event
  clean_up : (String → Bool) → ℕ → ℕ → Event

module _ (mongo : Mongo) (verify : String → String → Option Payload) where
  abbrev pub handle : Event → Terminals → Terminals
  handle (connect id h db secret f spawns now) t =
      (handle_connection mongo verify secret f spawns id h db now t).1
  handle (leave_socket id unkillable) t = handle_disconnect unkillable id t
  handle (input broken id field now) t = (handle_terminal_input broken id field now t).1
  handle (resize broken id cols rows now) t = (handle_terminal_resize broken id cols rows now t).1
  handle (exit id unkillable) t = destroy_terminal unkillable id t
  handle (clean_up unkillable max_minutes now) t =
      cleanup_inactive_sessions unkillable max_minutes now t

  -- the terminals after what has happened, the last first
  abbrev pub after : List Event → Terminals
  after [] = nobody
  after (e ∷ es) = handle e (after es)
