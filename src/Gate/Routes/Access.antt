-- ===== src/Gate/Routes/Access.antt =====
-- Who opens the gate over the network (backend/src/gate/gate.controller.ts and its guards).
use parking_gate_remote.Common.{
  ℕ, String, ◌≡◌, ◌≢◌, inl, inr, refl, Bool, true, false, none, some, arith, Bool-cases,
  Option-cases,
}
use parking_gate_remote.Common.Http.{Thrown, http, too_many_requests, Result, ok, err, Result-cases}
use parking_gate_remote.Mongo.{Mongo}
use parking_gate_remote.Users.{Db}
use parking_gate_remote.Auth.Tokens.{Payload}
use parking_gate_remote.Auth.Guards.{AuthUser, approved_route}
use parking_gate_remote.Gate.{Call, Gate, call_device, write_log, open_by_user, UserParams}
use parking_gate_remote.Auth.Guards.Passage.{MayPass, approved_route-MayPass}
use parking_gate_remote.Gate.Replay.{used, register-fault, register-conflict}
use parking_gate_remote.Gate.Log.{McuMetadata, GateLog}
use parking_gate_remote.Gate.Routes.{
  Request, throttled_log, check_request_id, is_uuid, open_params, filter_open, open_handler,
  throttled_open, open_route, replied, rate_message,
}

module _ (trim : String → String) (mongo : Mongo) {S : Type 0}
    (open_gate : String → String → S → Result McuMetadata × S) where
  filter_open-device :
      (unwritten : Bool) (l : GateLog) (e : Thrown) (g : Gate S)
      → (filter_open trim mongo open_gate unwritten l e g).1.device ≡ g.device
  unfolding filter_open
  filter_open-device unwritten l e g = ground arith

  open_by_user-device :
      (p : UserParams) (c : Call) (g : Gate S)
      → (open_by_user mongo open_gate p c g).1.device ≢ g.device
      → (c.request_fault ≡ none) × (used p.request_id g.requests ≡ false)
  unfolding open_by_user call_device write_log
  open_by_user-device p c g h = elim (Option-cases c.request_fault) [
    | inr (e, f) ↦ ground (arith, register-fault mongo p c g.requests e f)
    | inl f ↦ elim (Bool-cases (used p.request_id g.requests)) [
      | inl y ↦ ground (arith, register-conflict mongo p c g.requests f y)
      | inr n ↦ (f, n)
    ]
  ]

  -- What the request carries past the tests of the handler.
  pub record IsFresh (req : Request) (g : Gate S) : Type 0 where
    pub id : String
    pub carried : req.request_id ≡ some id
    pub well_formed : is_uuid id ≡ true
    pub unused : used id g.requests ≡ false

  check_request_id-ok :
      (req : Request) (id : String)
      → check_request_id trim req ≡ ok id
      → (req.request_id ≡ some id) × (is_uuid id ≡ true)
  unfolding check_request_id
  check_request_id-ok req id h = elim (Option-cases req.request_id) [
    | inl n ↦ ground (arith, n, h)
    | inr (s, y) ↦ ground (arith, y, h, Bool-cases (is_uuid s))
  ]

  open_handler-device :
      (req : Request) (a : AuthUser) (c : Call) (db : Db) (g : Gate S)
      → (open_handler trim mongo open_gate req a c db g).1.device ≢ g.device
      → IsFresh req g
  unfolding open_handler
  open_handler-device req a c db g h = elim (Result-cases (check_request_id trim req)) [
    | inl (e, n) ↦ ground (arith, n, h)
    | inr (id, y) ↦
        let (carried, well_formed) = check_request_id-ok req id y in
        record {
          id = id;
          carried = carried;
          well_formed = well_formed;
          unused =
              (open_by_user-device (open_params trim mongo req a db id) c g
                (ground (arith, y, h))).1;
        }
  ]

  replied-device :
      (unwritten : Bool) (l : GateLog) (r : Result (Unit {0})) (g : Gate S)
      → (replied trim mongo open_gate unwritten l (r, g)).1.device ≡ g.device
  replied-device unwritten l (ok u) g = refl
  replied-device unwritten l (err e) g = filter_open-device unwritten l e g

  -- If `POST /api/gate/open` changes the state of the device, then the user of the token may pass
  -- the guards, the request was not throttled, and it carries the id of no registered request,
  -- which is a UUID.
  pub open_route-device :
      (p : Payload) (now : ℕ) (throttled unwritten : Bool) (req : Request) (fallback_id : String)
      (c : Call) (db : Db) (g : Gate S)
      → (open_route trim mongo open_gate p now throttled unwritten req fallback_id c db g).2.device
        ≢ g.device
      → MayPass p db × (throttled ≡ false) × IsFresh req g
  unfolding open_route throttled_open
  open_route-device p now throttled unwritten req fallback_id c db g h =
      elim (Result-cases ((approved_route mongo p now db).0)) [
        | inl (e, n) ↦ ground (
          arith,
          n,
          h,
          filter_open-device unwritten (throttled_log trim req none fallback_id now) e g,
        )
        | inr (a, y) ↦ elim (Bool-cases throttled) [
          | inl t ↦ ground (
            arith,
            y,
            t,
            h,
            replied-device unwritten (throttled_log trim req (some a) fallback_id now)
                (err (http too_many_requests rate_message)) g,
          )
          | inr f ↦ (
            (approved_route-MayPass mongo p now db a y).1,
            f,
            open_handler-device req a c ((approved_route mongo p now db).1) g (
                ground (
                  arith,
                  y,
                  f,
                  h,
                  replied-device unwritten (throttled_log trim req (some a) fallback_id now)
                      ((open_handler trim mongo open_gate req a c
                        ((approved_route mongo p now db).1) g).0)
                      ((open_handler trim mongo open_gate req a c
                        ((approved_route mongo p now db).1) g).1),
                )),
          )
        ]
      ]
