-- ===== src/Gate/Audit.antt =====
-- The entries that the log gets (backend/src/gate/gate.service.ts), beside what the callers see
-- and what the device is asked.
use parking_gate_remote.Common.{
  String, ◌≡◌, refl, ◌↔◌, true, false, Option, none, some, List, [], ◌∷◌, ◌++◌, arith,
}
use parking_gate_remote.Common.Http.{Thrown, Result, ok, err, is_conflict}
use parking_gate_remote.Mongo.{Mongo}
use parking_gate_remote.Gate.{
  UserParams, AdminParams, Call, Gate, settle_user, settle_admin, user_log, admin_log,
  admin_request_id, returned, write_log, call_device, check_and_register_request_id, open_by_user,
  open_by_admin_backdoor,
}
use parking_gate_remote.Gate.Log.{GateRequest, GateLog, McuMetadata, success}
use parking_gate_remote.Gate.Log
use parking_gate_remote.Gate.Replay.{used, request_of, register-ok, register-fault}

settle_user-success :
    (r : Result McuMetadata) → ((settle_user r).status ≡ success) ↔ (returned r ≡ ok tt)
unfolding settle_user
settle_user-success r = ground arith

settle_admin-success :
    (r : Result McuMetadata) → ((settle_admin r).status ≡ success) ↔ (returned r ≡ ok tt)
unfolding settle_admin
settle_admin-success r = ground arith

-- An entry that tells the outcome of a call: it is the only one added, it carries the request
-- id, and it says "success" exactly when the caller got no exception.
pub record IsEntry {S : Type 0} (g g' : Gate S) (request_id : String) (r : Result (Unit {0}))
    : Type 0 where
  pub entry : GateLog
  pub appended : g'.logs ≡ g.logs ++ entry ∷ []
  pub about : entry.request_id ≡ request_id
  pub honest : (entry.status ≡ success) ↔ (r ≡ ok tt)

module _ (mongo : Mongo) {S : Type 0} where
  write_log-IsEntry :
      (fault : Option Thrown) (l : GateLog) (r : Result (Unit {0})) (g g' : Gate S)
      → fault ≡ none
      → g'.logs ≡ g.logs
      → (l.status ≡ success) ↔ (r ≡ ok tt)
      → let w = write_log mongo fault l r g' in IsEntry g w.1 l.request_id w.0
  unfolding write_log
  write_log-IsEntry (some e) l r g g' f same honest = cc
  write_log-IsEntry none l r g g' f same honest = record {
    entry = l;
    appended = rw (mongo.insert_lem GateLog l g'.logs, same);
    about = refl;
    honest = honest;
  }

  module _ (open_gate : String → String → S → Result McuMetadata × S) where
    call_device-logs :
        (p : UserParams) (q : Result (List GateRequest)) (g : Gate S)
        → (call_device mongo open_gate p q g).1.logs ≡ g.logs
    unfolding call_device
    call_device-logs p (ok rs) g = refl
    call_device-logs p (err e) g = refl

    -- Unless the log itself cannot be written, every opening by a user, however it ends, adds
    -- exactly one entry, and the entry says "success" exactly when the caller gets no exception.
    pub open_by_user-IsEntry :
        (p : UserParams) (c : Call) (g : Gate S)
        → c.log_fault ≡ none
        → let r = open_by_user mongo open_gate p c g in IsEntry g r.1 p.request_id r.0
    unfolding open_by_user
    open_by_user-IsEntry p c g l =
        let q =
          check_and_register_request_id mongo p.request_id p.user_id g.requests c.request_fault
            c.registered in
        let t = call_device mongo open_gate p q g in
        write_log-IsEntry c.log_fault (user_log p c (settle_user t.0)) (returned t.0) g t.1 l
          (call_device-logs p q g) (settle_user-success t.0)

    -- So does every opening through the back door.
    pub open_by_admin_backdoor-IsEntry :
        (p : AdminParams) (c : Call) (g : Gate S)
        → c.log_fault ≡ none
        → let r = open_by_admin_backdoor mongo open_gate p c g in
          IsEntry g r.1 (admin_request_id p c) r.0
    unfolding open_by_admin_backdoor
    open_by_admin_backdoor-IsEntry p c g l =
        let (r, d) = open_gate (admin_request_id p c) "admin-backdoor" g.device in
        write_log-IsEntry c.log_fault (admin_log p c (settle_admin r)) (returned r) g
          (record g { device = d }) l refl (settle_admin-success r)

    -- With an unused request id, the device is asked once, in its state before the call and for
    -- the caller; the caller gets the device's verdict, and the id is registered whatever the
    -- verdict is.
    pub open_by_user-fresh :
        (p : UserParams) (c : Call) (g : Gate S)
        → c.request_fault ≡ none
        → c.log_fault ≡ none
        → used p.request_id g.requests ≡ false
        → let (verdict, device) = open_gate p.request_id p.user_id g.device in
          let (r, g') = open_by_user mongo open_gate p c g in
          (r ≡ returned verdict)
          × (g'.device ≡ device)
          × (g'.requests ≡ g.requests ++ request_of p c ∷ [])
    unfolding open_by_user call_device write_log
    open_by_user-fresh p c g f l u = ground (arith, register-ok mongo p c g.requests f u)

    -- When the registration itself fails, with anything but a conflict, the device is not called
    -- and nothing is registered, and yet the entry in the log says that the opening was attempted.
    pub open_by_user-unregistered :
        (p : UserParams) (c : Call) (g : Gate S) (e : Thrown)
        → c.request_fault ≡ some e
        → c.log_fault ≡ none
        → is_conflict e ≡ false
        → let (r, g') = open_by_user mongo open_gate p c g in
          (r ≡ err e)
          × (g'.device ≡ g.device)
          × (g'.requests ≡ g.requests)
          × ((l : GateLog) × (g'.logs ≡ g.logs ++ l ∷ [])
              × (l.status ≡ Log.failed)
              × (l.mcu.attempted ≡ true))
    unfolding open_by_user call_device write_log settle_user
    open_by_user-unregistered p c g e f l k =
        let entry = user_log p c (settle_user (err e)) in
        let reg = register-fault mongo p c g.requests e f in
        (
          ground (arith, reg),
          ground (arith, reg),
          ground (arith, reg),
          (
            entry,
            ground (arith, reg, mongo.insert_lem GateLog entry g.logs),
            ground arith,
            ground arith,
          ),
        )
