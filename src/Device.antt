-- ===== src/Device.antt =====
-- Commands that wait for a device to poll: backend/src/device/device-commands.service.ts, with
-- device/device.controller.ts and device/schemas/device-pending-command.schema.ts.
pub mod Delivery
pub mod Once
pub mod Access
pub mod Ota
mod Tests
use parking_gate_remote.Common.{
  ℕ, suc, ◌+◌, ◌*◌, String, Bool, true, false, not, Option, none, some, List, [], ◌∷◌, ◌==◌, ◌&&◌,
  ◌||◌, ltb, first, text_or, if◌then◌else◌,
}
use parking_gate_remote.Common.Http.{Thrown, http, unauthorized, bad_request, Result, ok, err}
use parking_gate_remote.Mongo.{Mongo}
use Prim.Native.String.{count}

pub data Action : Type 0 where
  nothing reboot rebuild_ppp : Action

-- A document of the collection; `id` is its `_id`.
pub record Command : Type 0 where
  pub id : String
  pub device_id : String
  pub action : Action
  pub reason : Option String
  pub expires_at : Option ℕ
  pub consumed_at : Option ℕ
  pub created_at : ℕ

-- What the device gets when it polls: `none` stands for the action "none".
abbrev pub Answer : Type 0
Answer = Option Command

abbrev pub for_device : String → Command → Bool
for_device device_id d = d.device_id == device_id

abbrev pub has_id : String → Command → Bool
has_id id d = d.id == id

abbrev pub missing {ℓ} : {A : Type ℓ} → Option A → Bool
missing none = true
missing (some a) = false

-- `$or: [{ expiresAt: { $exists: false } }, { expiresAt: { $gt: now } }]`
abbrev unexpired : ℕ → Option ℕ → Bool
unexpired now none = true
unexpired now (some t) = ltb now t

-- the filter of `consumePending` and `getLatestPending`
abbrev pub is_live : String → ℕ → Command → Bool
is_live device_id now d =
    for_device device_id d && missing d.consumed_at && unexpired now d.expires_at

-- `ttlSeconds && ttlSeconds > 0 ? new Date(Date.now() + ttlSeconds * 1000) : undefined`
abbrev pub expiry : Option ℕ → ℕ → Option ℕ
expiry none now = none
expiry (some ttl_seconds) now = if ltb 0 ttl_seconds then some (now + ttl_seconds * 1000) else none

abbrev is_nothing : Action → Bool
is_nothing nothing = true
is_nothing _ = false

abbrev pub new_command : String → Action → Option String → Option ℕ → String → ℕ → Command
new_command device_id action reason ttl_seconds id now = record {
  id = id;
  device_id = device_id;
  action = action;
  reason = reason;
  expires_at = expiry ttl_seconds now;
  consumed_at = none;
  created_at = now;
}

module _ (mongo : Mongo) where
  -- `setPending`; the id and the time of a new document are the server's.
  pub set_pending :
      String → Action → Option String → Option ℕ → String → ℕ → List Command → List Command
  set_pending device_id action reason ttl_seconds id now ds =
      if is_nothing action
      then mongo.delete_many Command (for_device device_id) ds
      else mongo.insert Command (new_command device_id action reason ttl_seconds id now) ds

  -- `getLatestPending`: `findOne(live).sort({ createdAt: -1 })`
  pub get_latest_pending : String → ℕ → List Command → Answer
  get_latest_pending device_id now ds =
      first (λ d. true) (mongo.find_sorted Command (is_live device_id now) (λ d. d.created_at) ds)

  -- `consumePending`: the document is marked and saved.
  pub consume_pending : String → ℕ → List Command → Answer × List Command
  consume_pending device_id now ds = elim (get_latest_pending device_id now ds) [
    | none ↦ (none, ds)
    | some d ↦ (
      some d,
      mongo.update_one Command (has_id d.id) (λ x. record x { consumed_at = some now }) ds,
    )
  ]

-- What `DEVICE_TOKENS_JSON` holds for a device: unset, no valid JSON, or a map.
pub data Tokens : Type 0 where
  unset malformed : Tokens
  tokens : (String → Option String) → Tokens

pub get_device_token : Tokens → String → Result (Option String)
get_device_token unset device_id = ok none
get_device_token malformed device_id = err (http bad_request "DEVICE_TOKENS_JSON is not valid JSON")
get_device_token (tokens m) device_id = ok (m device_id)

-- the tests of `assertDeviceAuth` on the token that is expected
pub check_token : Option String → String → Result (Unit {0})
check_token none token = err (http unauthorized "Device auth not configured")
check_token (some expected) token =
    if expected == "" || ltb (count expected) 8
    then err (http unauthorized "Device auth not configured")
    else if token == expected
    then ok tt
    else err (http unauthorized "Invalid device token")

pub assert_device_auth : Tokens → String → String → Result (Unit {0})
assert_device_auth ts device_id token = elim (get_device_token ts device_id) [
  | ok expected ↦ check_token expected token
  | err e ↦ err e
]

-- The status codes by which the modem reads the answer.
pub status_of : Answer → ℕ
status_of none = 200
status_of (some d) = elim d.action [ reboot ↦ 205 | rebuild_ppp ↦ 206 | nothing ↦ 200 ]

module _ (mongo : Mongo) (trim : String → String) where
  -- `GET device/pending-command`
  pub get_pending_command :
      Tokens
      → Option String
      → Option String
      → Option String
      → ℕ
      → List Command
      → Result (ℕ × Answer) × List Command
  get_pending_command ts id_header token_header id_query now ds =
      let device_id = trim (text_or id_header (text_or id_query "")) in
      let token = trim (text_or token_header "") in
      elim (assert_device_auth ts device_id token) [
        | err e ↦ (err e, ds)
        | ok u ↦
            let (answer, ds') = consume_pending mongo device_id now ds in
            (ok (status_of answer, answer), ds')
      ]
