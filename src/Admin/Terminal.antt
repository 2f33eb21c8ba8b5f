-- ===== src/Admin/Terminal.antt =====
-- The web terminal: backend/src/admin/terminal/terminal.service.ts, with the state of the sockets.
-- The files of the SSH key and the program that `spawn` starts are parameters, and so is whether
-- `kill` throws. A session keeps when it was used last.
pub mod Gateway
pub mod Kept
pub mod Access
mod Tests
use parking_gate_remote.Common.{
  ℕ, zero, suc, ◌*◌, ◌-◌, inl, inr, ◌⊎◌, String, ℤ, pos, negsuc, Bool, true, false, not, Option,
  none, some, List, [], ◌∷◌, ◌==◌, ◌&&◌, ◌||◌, if◌then◌else◌, truthy, ltb,
}
use parking_gate_remote.Common.Assoc.{lookup, insert, delete, string_eq}
use parking_gate_remote.Common.Json.{Json, text, truth}
use parking_gate_remote.Common.Text.{codes, starts_with}
use parking_gate_remote.Mongo.{Mongo}
use parking_gate_remote.Users.{Db, find_by_id}
use parking_gate_remote.Users.Schema.{User, Role, user, admin}
use parking_gate_remote.Auth.{is_admin}
use parking_gate_remote.Auth.Tokens.{Payload}
use Prim.Native.String.{count}

pub record TerminalSession : Type 0 where
  pub user_id : String
  pub created_at : ℕ
  pub last_activity : ℕ

-- What a socket carries once it has passed the tests.
pub record Client : Type 0 where
  pub user_id : String
  pub user_role : Role

-- The service and the sockets of the gateway; `written` and `sizes` are what the programs have
-- received, the last first, each with the user of its session.
pub record Terminals : Type 0 where
  pub sessions : List (String × TerminalSession)
  pub ssh_key_path : Option String
  pub clients : List (String × Client)
  pub written : List (String × String)
  pub sizes : List (String × (ℕ × ℕ))

abbrev pub nobody : Terminals
nobody = record { sessions = []; ssh_key_path = none; clients = []; written = []; sizes = [] }

-- `s.substring(n)`
abbrev pub substring : ℕ → String → String
substring zero s = s
substring (suc n) String.[] = String.[]
substring (suc n) (String.◌∷◌ c s) = substring n s

-- `s.replace(p, '')`: the first occurrence is removed.
abbrev pub without : String → String → String
without p String.[] = String.[]
without p (String.◌∷◌ c s) =
    let rest = without p s in
    if starts_with (codes p) (codes (String.◌∷◌ c s))
    then substring (count p) (String.◌∷◌ c s)
    else String.◌∷◌ c rest

-- Whether the key is there, and whether it can be copied and its permissions set.
pub record KeyFile : Type 0 where
  pub exists : Bool
  pub copied : Bool

-- `prepareSshKey`
unfoldable pub prepare_ssh_key : KeyFile → Option String → Option String
prepare_ssh_key f old =
    if f.exists
    then if f.copied then some "/tmp/container_key_secure" else some "/app/ssh-keys/container_key"
    else old

-- the path that `createTerminal` gives to SSH
abbrev pub key_path : KeyFile → Option String → String
key_path f (some path) = path
key_path f none = elim (prepare_ssh_key f none) [
  | none ↦ "/app/ssh-keys/container_key"
  | some path ↦ path
]

abbrev pub command_args : String → List String
command_args path =
    "-tt" ∷ "-o" ∷ "StrictHostKeyChecking=no" ∷ "-o" ∷ "UserKnownHostsFile=/dev/null" ∷ "-o"
    ∷ "LogLevel=ERROR" ∷ "-i" ∷ path ∷ "ubuntu@host.docker.internal" ∷ "/bin/bash" ∷ "-i" ∷ "-l"
    ∷ []

abbrev pub is_present : {A : Type 0} → Option A → Bool
is_present none = false
is_present (some a) = true

abbrev pub new_session : String → ℕ → TerminalSession
new_session user_id now = record { user_id = user_id; created_at = now; last_activity = now }

-- `createTerminal`; the answer says whether an error is thrown.
unfoldable pub create_terminal :
    KeyFile → (List String → Bool) → String → String → ℕ → Terminals → Bool × Terminals
create_terminal f spawns session_id user_id now t =
    let path = key_path f t.ssh_key_path in
    if is_present (lookup session_id t.sessions)
    then (false, t)
    else if spawns (command_args path)
    then (
      false,
      record t {
        ssh_key_path = some path;
        sessions = insert session_id (new_session user_id now) t.sessions;
      },
    )
    else (true, record t { ssh_key_path = some path })

abbrev pub with_activity : ℕ → TerminalSession → TerminalSession
with_activity now s = record s { last_activity = now }

-- `writeToTerminal`; an error of the program, which the first argument says, is caught.
unfoldable pub write_to_terminal : Bool → String → String → ℕ → Terminals → Terminals
write_to_terminal broken session_id typed now t = elim (lookup session_id t.sessions) [
  | none ↦ t
  | some s ↦ if broken then t else record t {
    sessions = insert session_id (with_activity now s) t.sessions;
    written = (s.user_id, typed) ∷ t.written;
  }
]

-- `resizeTerminal`
unfoldable pub resize_terminal : Bool → String → ℕ → ℕ → ℕ → Terminals → Terminals
resize_terminal broken session_id cols rows now t = elim (lookup session_id t.sessions) [
  | none ↦ t
  | some s ↦ if broken then t else record t {
    sessions = insert session_id (with_activity now s) t.sessions;
    sizes = (s.user_id, (cols, rows)) ∷ t.sizes;
  }
]

-- `destroyTerminal`; a session whose program cannot be killed stays.
unfoldable pub destroy_terminal : (String → Bool) → String → Terminals → Terminals
destroy_terminal unkillable session_id t =
    if is_present (lookup session_id t.sessions) && not (unkillable session_id)
    then record t { sessions = delete session_id t.sessions }
    else t

abbrev pub is_inactive : ℕ → ℕ → TerminalSession → Bool
is_inactive max_minutes now s = ltb (max_minutes * 60 * 1000) (now - s.last_activity)

-- the loop of `cleanupInactiveSessions` over the entries
unfoldable pub cleanup_entries :
    (String → Bool) → ℕ → ℕ → List (String × TerminalSession) → Terminals → Terminals
cleanup_entries unkillable max_minutes now [] t = t
cleanup_entries unkillable max_minutes now ((session_id, s) ∷ ss) t =
    cleanup_entries unkillable max_minutes now ss
      (if is_inactive max_minutes now s then destroy_terminal unkillable session_id t else t)

unfoldable pub cleanup_inactive_sessions : (String → Bool) → ℕ → ℕ → Terminals → Terminals
cleanup_inactive_sessions unkillable max_minutes now t =
    cleanup_entries unkillable max_minutes now t.sessions t
