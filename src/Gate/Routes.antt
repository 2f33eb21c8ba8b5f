-- ===== src/Gate/Routes.antt =====
-- The routes of the gate: backend/src/gate/gate.controller.ts behind its guards, with
-- gate-exception.filter.ts and utils/ip-extractor.ts.
pub mod Access
mod Tests
use parking_gate_remote.Common.{
  ℕ, zero, suc, ◌-◌, String, Bool, true, false, not, Option, none, some, List, [], ◌∷◌, ◌==◌, ◌&&◌,
  ◌||◌, ltb, eqb, text_or, truthy, is_text, if◌then◌else◌, length, pos,
}
use parking_gate_remote.Common.Text.{codes, is_hex, before_comma}
use parking_gate_remote.Common.Http.{
  Kind, bad_request, unauthorized, forbidden, not_found, conflict, bad_gateway, gateway_timeout,
  too_many_requests, Thrown, http, http_reason, error, value, Result, ok, err,
}
use parking_gate_remote.Mongo.{Mongo}
use parking_gate_remote.Users.{Db, find_by_id}
use parking_gate_remote.Users.Schema.{User}
use parking_gate_remote.Auth.Tokens.{Payload}
use parking_gate_remote.Auth.Guards.{AuthUser, approved_route}
use parking_gate_remote.Gate.{
  UserParams, AdminParams, Call, Gate, untried, open_by_user, open_by_admin_backdoor,
}
use parking_gate_remote.Gate.Log.{user, blocked_rate_limit, McuMetadata, GateLog}

-- What the handlers read of a request; a header that is missing is `none`.
pub record Request : Type 0 where
  pub request_id : Option String  -- `x-request-id`
  pub cf_connecting_ip : Option String
  pub x_forwarded_for : Option String
  pub ip : Option String  -- `req.ip`
  pub user_agent : Option String

-- `/^[0-9a-f]{8}-[0-9a-f]{4}-[0-9a-f]{4}-[0-9a-f]{4}-[0-9a-f]{12}$/i`: the number of digits up
-- to the next dash, and the groups behind it.
abbrev pub groups : ℕ → List ℕ → List ℕ → Bool
groups zero [] [] = true
groups zero [] (c ∷ s) = false
groups zero (n ∷ ns) [] = false
groups zero (n ∷ ns) (c ∷ s) = eqb c b'-' && groups n ns s
groups (suc k) ns [] = false
groups (suc k) ns (c ∷ s) = is_hex c && groups k ns s

pub is_uuid : String → Bool
is_uuid s = groups 8 (4 ∷ 4 ∷ 4 ∷ 12 ∷ []) (codes s)

-- what `getHttpStatus` gives for each class
abbrev pub status_code : Kind → ℕ
status_code bad_request = 400
status_code unauthorized = 401
status_code forbidden = 403
status_code not_found = 404
status_code conflict = 409
status_code bad_gateway = 502
status_code gateway_timeout = 504
status_code too_many_requests = 429

abbrev pub server_error : String
server_error = "\u{5e9}\u{5d2}\u{5d9}\u{5d0}\u{5ea} \u{5e9}\u{5e8}\u{5ea}"

abbrev pub rate_message : String
rate_message =
    "\u{5d9}\u{5d5}\u{5ea}\u{5e8} \u{5de}\u{5d3}\u{5d9} \u{5d1}\u{5e7}\u{5e9}\u{5d5}\u{5ea}, \u{5e0}\u{5e1}\u{5d4} \u{5e9}\u{5d5}\u{5d1} \u{5d1}\u{5e2}\u{5d5}\u{5d3} \u{5e8}\u{5d2}\u{5e2}"

-- The answer of the filter to a request that failed.
pub record Answer : Type 0 where
  pub status : ℕ
  pub message : String

-- What the client gets: success, or the answer of the filter.
pub data Reply : Type 0 where
  opened : Reply
  failed : Answer → Reply

-- the status and the message of `GateExceptionFilter.catch` for `POST /api/gate/open`
pub answer_to : Thrown → Answer
answer_to (http k m) = record { status = status_code k; message = m }
answer_to (http_reason k m r) = record { status = status_code k; message = m }
answer_to (error n m) = record { status = 500; message = server_error }
answer_to value = record { status = 500; message = server_error }

abbrev pub is_throttled : Thrown → Bool
is_throttled (http too_many_requests m) = true
is_throttled (http_reason too_many_requests m r) = true
is_throttled _ = false

abbrev user_field {ℓ} : {A : Type ℓ} → (AuthUser → A) → Option AuthUser → Option A
user_field f none = none
user_field f (some a) = some (f a)

module _ (trim : String → String) where
  -- `getClientIp`
  abbrev pub get_client_ip : Request → String
  get_client_ip req =
      if truthy req.cf_connecting_ip
      then text_or req.cf_connecting_ip ""
      else if truthy req.x_forwarded_for
          && not (trim (before_comma (text_or req.x_forwarded_for "")) == "")
      then trim (before_comma (text_or req.x_forwarded_for ""))
      else text_or req.ip "unknown"

  -- the entry of the filter for a request that was throttled; a request without an id gets one
  -- that the time gives
  abbrev pub throttled_log : Request → Option AuthUser → String → ℕ → GateLog
  throttled_log req a fallback_id now = record {
    request_id = text_or req.request_id fallback_id;
    user_id = user_field (λ u. u.user_id) a;
    email = none;
    device_id = user_field (λ u. u.device_id) a;
    session_id = user_field (λ u. u.sid) a;
    ip = some (get_client_ip req);
    user_agent = req.user_agent;
    opened_by = user;
    status = blocked_rate_limit;
    failure_reason = some rate_message;
    duration_ms = pos 0;
    mcu = untried;
    created_at = now;
  }

  -- the tests of `open` on the request id
  pub check_request_id : Request → Result String
  check_request_id req =
      if truthy req.request_id
      then if is_uuid (text_or req.request_id "")
        then ok (text_or req.request_id "")
        else err (
            http bad_request
              "X-Request-Id \u{5d7}\u{5d9}\u{5d9}\u{5d1} \u{5dc}\u{5d4}\u{5d9}\u{5d5}\u{5ea} UUID \u{5ea}\u{5e7}\u{5d9}\u{5df}")
      else err (http bad_request "\u{5e0}\u{5d3}\u{5e8}\u{5e9} X-Request-Id header")

  module _ (mongo : Mongo) where
    abbrev email_of : Option User → String
    email_of none = ""
    email_of (some u) = u.email

    abbrev pub open_params : Request → AuthUser → Db → String → UserParams
    open_params req a db request_id = record {
      request_id = request_id;
      user_id = a.user_id;
      email = email_of (find_by_id mongo a.user_id db);
      device_id = a.device_id;
      session_id = some a.sid;
      ip = some (get_client_ip req);
      user_agent = req.user_agent;
    }

    module _ {S : Type 0} (open_gate : String → String → S → Result McuMetadata × S) where
      -- `GateExceptionFilter.catch` for `POST /api/gate/open`; that the entry cannot be written,
      -- which the first argument says, is ignored.
      pub filter_open : Bool → GateLog → Thrown → Gate S → Reply × Gate S
      filter_open unwritten l e g = (
        failed (answer_to e),
        if is_throttled e && not unwritten
            then record g { logs = mongo.insert GateLog l g.logs }
            else g,
      )

      -- `open`, for the user of the request
      pub open_handler : Request → AuthUser → Call → Db → Gate S → Result (Unit {0}) × Gate S
      open_handler req a c db g = elim (check_request_id req) [
        | err e ↦ (err e, g)
        | ok request_id ↦ open_by_user mongo open_gate (open_params req a db request_id) c g
      ]

      abbrev replied : Bool → GateLog → Result (Unit {0}) × Gate S → Reply × Gate S
      replied unwritten l (ok u, g) = (opened, g)
      replied unwritten l (err e, g) = filter_open unwritten l e g

      -- what comes behind `AuthGuard` and `ApprovedGuard`: the throttler, whose verdict is a
      -- parameter, and the handler
      pub throttled_open :
          Bool → Request → AuthUser → Call → Db → Gate S → Result (Unit {0}) × Gate S
      throttled_open throttled req a c db g =
          if throttled
          then (err (http too_many_requests rate_message), g)
          else open_handler req a c db g

      -- `POST /api/gate/open`, with a token whose signature holds, and the filter round it
      pub open_route :
          Payload → ℕ → Bool → Bool → Request → String → Call → Db → Gate S → Reply × Db × Gate S
      open_route p now throttled unwritten req fallback_id c db g =
          let (r, db') = approved_route mongo p now db in
          elim r [
            | err e ↦
                let (reply, g') =
                  filter_open unwritten (throttled_log req none fallback_id now) e g in
                (reply, db', g')
            | ok a ↦
                let (reply, g') =
                  replied unwritten (throttled_log req (some a) fallback_id now)
                    (throttled_open throttled req a c db' g) in
                (reply, db', g')
          ]

      -- `adminOpen`, with the key of the configuration and then of the environment
      pub admin_open :
          Option String
          → Option String
          → Option String
          → Request
          → Call
          → Gate S
          → Result (Unit {0}) × Gate S
      admin_open configured environment key req c g =
          if truthy configured || truthy environment
          then if truthy key && is_text key (text_or configured (text_or environment ""))
            then open_by_admin_backdoor mongo open_gate
                (record {
                  request_id = none;
                  ip = some (get_client_ip req);
                  user_agent = req.user_agent;
                })
                c g
            else (
              err (
                  http bad_request
                    "\u{5de}\u{5e4}\u{5ea}\u{5d7} \u{5dc}\u{5d0} \u{5ea}\u{5e7}\u{5d9}\u{5df}"),
              g,
            )
          else (
            err (
                http bad_request
                  "\u{5de}\u{5e4}\u{5ea}\u{5d7} \u{5e4}\u{5ea}\u{5d9}\u{5d7}\u{5ea} \u{5d0}\u{5d3}\u{5de}\u{5d9}\u{5df} \u{5dc}\u{5d0} \u{5de}\u{5d5}\u{5d2}\u{5d3}\u{5e8}"),
            g,
          )
