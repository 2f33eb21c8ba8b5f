-- ===== src/Gate/Replay.antt =====
-- Replay protection: a request id and the record that its first use leaves
-- (backend/src/gate/gate.service.ts), against MongoDB's removal of records past their time to
-- live (backend/src/gate/schemas/gate-request.schema.ts, backend/src/gate/gate.module.ts).
use parking_gate_remote.Common.{
  ℕ, ◌+◌, ◌≤◌, ◌<◌, String, ◌≡◌, refl, ◌⊎◌, inl, inr, Bool, true, false, none, some, List, [], ◌∷◌,
  ◌++◌, ◌==◌, arith, eq_iff, any, reject, All, Bool-cases, Option-cases,
}
use parking_gate_remote.Common.Http.{http, conflict, Thrown, Result, ok, err}
use parking_gate_remote.Mongo.{Mongo}
use parking_gate_remote.Gate.{
  UserParams, AdminParams, Call, Gate, untried, replay_message, user_log, write_log,
  check_and_register_request_id, call_device, open_by_user, open_by_admin_backdoor, settle_user,
}
use parking_gate_remote.Gate.Log.{GateRequest, GateLog, McuMetadata, blocked_replay}

-- What happens to the gate: an opening by a user or through the back door, or a sweep of the
-- monitor that enforces the time to live, at some time, over the records that pass a test.
pub data Event : Type 0 where
  opens : UserParams → Call → Event
  opens_admin : AdminParams → Call → Event
  sweeps : ℕ → (GateRequest → Bool) → Event

-- A sweep takes only records that are more than `ttl` old, and comes while a record made at
-- `since` is not.
abbrev pub Keeps : ℕ → ℕ → Event → Type 0
Keeps ttl since (opens p c) = Unit
Keeps ttl since (opens_admin p c) = Unit
Keeps ttl since (sweeps now dead) =
    (now ≤ since + ttl) × ((r : GateRequest) → dead r ≡ true → r.created_at + ttl < now)

abbrev pub used : String → List GateRequest → Bool
used id = any λ r. r.request_id == id

abbrev pub request_of : UserParams → Call → GateRequest
request_of p c = record {
  request_id = p.request_id;
  user_id = p.user_id;
  created_at = c.registered;
}

abbrev Holds : GateRequest → List GateRequest → Type 0
Holds r [] = ⊥
Holds r (x ∷ xs) = (x ≡ r) ⊎ Holds r xs

Holds-append : (r : GateRequest) (xs ys : List GateRequest) → Holds r xs → Holds r (xs ++ ys)
Holds-append r [] ys h = absurd h
Holds-append r (x ∷ xs) ys (inl e) = inl e
Holds-append r (x ∷ xs) ys (inr h) = inr (Holds-append r xs ys h)

Holds-last : (r : GateRequest) (xs : List GateRequest) → Holds r (xs ++ r ∷ [])
Holds-last r [] = inl refl
Holds-last r (x ∷ xs) = inr (Holds-last r xs)

Holds-reject :
    (r : GateRequest) (p : GateRequest → Bool) (xs : List GateRequest)
    → p r ≡ false
    → Holds r xs
    → Holds r (reject p xs)
Holds-reject r p [] e h = absurd h
Holds-reject r p (x ∷ xs) e (inl same) = ground arith
Holds-reject r p (x ∷ xs) e (inr h) = ground (arith, Holds-reject r p xs e h)

Holds-used : (r : GateRequest) (xs : List GateRequest) → Holds r xs → used r.request_id xs ≡ true
Holds-used r [] h = absurd h
Holds-used r (x ∷ xs) (inl e) = ground (arith, eq_iff x.request_id r.request_id)
Holds-used r (x ∷ xs) (inr h) = ground (arith, Holds-used r xs h)

module _ (mongo : Mongo) where
  pub register-conflict :
      (p : UserParams) (c : Call) (rs : List GateRequest)
      → c.request_fault ≡ none
      → used p.request_id rs ≡ true
      → check_and_register_request_id mongo p.request_id p.user_id rs c.request_fault c.registered
        ≡ err (http conflict replay_message)
  unfolding check_and_register_request_id
  register-conflict p c rs f u =
      ground
        (arith, mongo.create_unique-duplicate GateRequest (λ r. r.request_id) (request_of p c) rs)

  pub register-ok :
      (p : UserParams) (c : Call) (rs : List GateRequest)
      → c.request_fault ≡ none
      → used p.request_id rs ≡ false
      → check_and_register_request_id mongo p.request_id p.user_id rs c.request_fault c.registered
        ≡ ok (rs ++ request_of p c ∷ [])
  unfolding check_and_register_request_id
  register-ok p c rs f u =
      ground
        (arith, mongo.create_unique-created GateRequest (λ r. r.request_id) (request_of p c) rs)

  pub register-fault :
      (p : UserParams) (c : Call) (rs : List GateRequest) (e : Thrown)
      → c.request_fault ≡ some e
      → check_and_register_request_id mongo p.request_id p.user_id rs c.request_fault c.registered
        ≡ err e
  unfolding check_and_register_request_id
  register-fault p c rs e f =
      ground
        (arith, mongo.create_unique-failed GateRequest (λ r. r.request_id) e (request_of p c) rs)

  module _ {S : Type 0} (open_gate : String → String → S → Result McuMetadata × S) where
    -- A used request id is refused: the device is not called, nothing is registered, and one
    -- entry says so in the log.
    pub open_by_user-used :
        (p : UserParams) (c : Call) (g : Gate S)
        → c.request_fault ≡ none
        → c.log_fault ≡ none
        → used p.request_id g.requests ≡ true
        → open_by_user mongo open_gate p c g ≡ (
          err (http conflict replay_message),
          record g {
            logs =
                g.logs
                ++ user_log p c (record {
                  status = blocked_replay;
                  failure_reason = some replay_message;
                  mcu = untried;
                })
                  ∷ [];
          },
        )
    unfolding open_by_user call_device settle_user write_log
    open_by_user-used p c g f l u = ground (
      arith,
      register-conflict p c g.requests f u,
      mongo.insert_lem GateLog
          (user_log p c (record {
            status = blocked_replay;
            failure_reason = some replay_message;
            mcu = untried;
          }))
          g.logs,
    )

    -- What one event leaves of the gate.
    pub step : Gate S → Event → Gate S
    step g (opens p c) = (open_by_user mongo open_gate p c g).1
    step g (opens_admin p c) = (open_by_admin_backdoor mongo open_gate p c g).1
    step g (sweeps now dead) = record g { requests = mongo.delete_many GateRequest dead g.requests }

    pub run : Gate S → List Event → Gate S
    run g [] = g
    run g (e ∷ es) = run (step g e) es

    open_by_user-Holds :
        (r : GateRequest) (p : UserParams) (c : Call) (g : Gate S)
        → Holds r g.requests
        → Holds r (open_by_user mongo open_gate p c g).1.requests
    unfolding open_by_user call_device settle_user write_log
    open_by_user-Holds r p c g h = elim (Option-cases c.request_fault) [
      | inl fine ↦ elim (Bool-cases (used p.request_id g.requests)) [
        | inl u ↦ ground (arith, register-conflict p c g.requests fine u)
        | inr u ↦ ground (
          arith,
          register-ok p c g.requests fine u,
          Holds-append r g.requests (request_of p c ∷ []) h,
        )
      ]
      | inr (e, fault) ↦ ground (arith, register-fault p c g.requests e fault)
    ]

    step-Holds :
        (ttl : ℕ) (r : GateRequest) (g : Gate S) (e : Event)
        → Keeps ttl r.created_at e
        → Holds r g.requests
        → Holds r (step g e).requests
    unfolding step
    step-Holds ttl r g (opens p c) k h = open_by_user-Holds r p c g h
    step-Holds ttl r g (opens_admin p c) k h =
        unfold open_by_admin_backdoor write_log in ground arith
    step-Holds ttl r g (sweeps now dead) (soon, old) h =
        rw (mongo.delete_many_lem GateRequest dead g.requests)
          (Holds-reject r dead g.requests (ground (arith, old r)) h)

    run-Holds :
        (ttl : ℕ) (r : GateRequest) (g : Gate S) (es : List Event)
        → All (Keeps ttl r.created_at) es
        → Holds r g.requests
        → Holds r (run g es).requests
    unfolding run
    run-Holds ttl r g [] k h = h
    run-Holds ttl r g (e ∷ es) (k, ks) h =
        run-Holds ttl r (step g e) es ks (step-Holds ttl r g e k h)

    open_by_user-registers :
        (p : UserParams) (c : Call) (g : Gate S)
        → c.request_fault ≡ none
        → used p.request_id g.requests ≡ false
        → Holds (request_of p c) (open_by_user mongo open_gate p c g).1.requests
    unfolding open_by_user call_device settle_user write_log
    open_by_user-registers p c g f u =
        ground (arith, register-ok p c g.requests f u, Holds-last (request_of p c) g.requests)

    -- Once a request id has been registered, no history of openings and sweeps lets it reach the
    -- device again within the time to live: a later call with the same id is refused with a
    -- conflict, leaves the device and the records as they are, and is logged as a replay.
    pub replay_refused :
        (ttl : ℕ) (first second : UserParams) (c d : Call) (g : Gate S) (es : List Event)
        → c.request_fault ≡ none
        → used first.request_id g.requests ≡ false
        → All (Keeps ttl c.registered) es
        → second.request_id ≡ first.request_id
        → d.request_fault ≡ none
        → d.log_fault ≡ none
        → let later = run (open_by_user mongo open_gate first c g).1 es in
          open_by_user mongo open_gate second d later ≡ (
            err (http conflict replay_message),
            record later {
              logs =
                  later.logs
                  ++ user_log second d (record {
                    status = blocked_replay;
                    failure_reason = some replay_message;
                    mcu = untried;
                  })
                    ∷ [];
            },
          )
    replay_refused ttl first second c d g es f u ks same f' l =
        open_by_user-used second d (run (open_by_user mongo open_gate first c g).1 es) f' l (
          rw same (
            Holds-used (request_of first c) _
              (run-Holds ttl (request_of first c) _ es ks (open_by_user-registers first c g f u))))
