-- ===== src/Gate/Mqtt/Promises.antt =====
-- Every promise of the device service over MQTT gets settled
-- (backend/src/gate/mqtt-gate-device.service.ts), as long as no command is sent while another
-- with its request id waits, and no error of a publication comes late.
use parking_gate_remote.Common.{
  ℕ, ◌<◌, String, ◌≡◌, ◌≢◌, refl, ◌↔◌, inl, inr, Bool, Option, none, some, List, [], ◌∷◌, arith,
  eq_iff, Option-cases, eqb, if◌then◌else◌, subst,
}
use parking_gate_remote.Common.Assoc.{string_eq, number_eq, lookup, lookup-delete}
use parking_gate_remote.Common.Http.{err}
use parking_gate_remote.Gate.Mqtt.{
  Pending, Mqtt, start, publish_failed, time_out, handle_ack_message, clear_timers, disconnect,
  Event, created, connected, lost, ended, disconnects, publishes, publish_fails, acks, fires, step,
  run, too_long, not_sent, verdict,
}
use parking_gate_remote.Gate.Mqtt.Tracked.{
  IsTracked, lookup-settle, lookup-settle_self, close-IsTracked,
}
use parking_gate_remote.Gate.Mqtt.Preserved.{
  start-IsTracked, publish_command-IsTracked, disconnect-IsTracked, handle_ack_message-IsTracked,
  time_out-IsTracked, disconnect-no_stray, disconnect-settled,
}

-- A command is sent only while no command with its request id waits, and the error of a
-- publication comes while the entry of its request, if there is one, is that of its call.
abbrev pub Proper : Mqtt → Event → Type 0
Proper m (publishes id user now) = lookup id m.pending_requests ≡ none
Proper m (publish_fails n id) =
    (n < m.next)
    × ((j : String) (p : Pending) → lookup j m.pending_requests ≡ some p → (p.call ≡ n) ↔ (j ≡ id))
Proper m _ = Unit

abbrev pub Orderly : Mqtt → List Event → Type 0
Orderly m [] = Unit
Orderly m (e ∷ es) = Proper m e × Orderly (step m e) es

step-IsTracked : (m : Mqtt) (e : Event) → IsTracked m → Proper m e → IsTracked (step m e)
unfolding step publish_failed
step-IsTracked m created v h = ground arith
step-IsTracked m connected v h = ground arith
step-IsTracked m lost v h = ground arith
step-IsTracked m ended v h = ground arith
step-IsTracked m disconnects v h = disconnect-IsTracked m v
step-IsTracked m (publishes id user now) v h = publish_command-IsTracked m id user now v h
step-IsTracked m (publish_fails n id) v h = close-IsTracked m id n (err not_sent) v h.1 h.0
step-IsTracked m (acks id good code) v h = handle_ack_message-IsTracked m id good code v
step-IsTracked m (fires t) v h = time_out-IsTracked m t v

run-IsTracked : (m : Mqtt) (es : List Event) → IsTracked m → Orderly m es → IsTracked (run m es)
unfolding run
run-IsTracked m [] v h = v
run-IsTracked m (e ∷ es) v h = run-IsTracked (step m e) es (step-IsTracked m e v h.0) h.1

-- After any orderly history of the service, every promise ever made is settled or has an entry,
-- and then its own timer is set; every timer that is set belongs to the entry of its request; and
-- no promise that has an entry is settled.
pub run-start-IsTracked : (es : List Event) → Orderly start es → IsTracked (run start es)
run-start-IsTracked es h = run-IsTracked start es start-IsTracked h

-- No promise is forgotten: after any orderly history, when the timer of a promise that is not yet
-- settled fires, the promise is rejected with a timeout.
pub time_out_settles :
    (es : List Event) (n : ℕ)
    → Orderly start es
    → n < (run start es).next
    → lookup n (run start es).settled ≡ none
    → lookup n (time_out n (run start es)).settled ≡ some (err too_long)
unfolding time_out
time_out_settles es n h lt open_ =
    let m = run start es in
    let v = run-start-IsTracked es h in
    let (j, p, has, is) = v.accounted n lt open_ in
    let t = v.timed j p has in
    let timer : p.timeout ≡ n = omega arith in
    let armed : lookup n m.timers ≡ some j = subst (λ k. lookup k m.timers ≡ some j) timer t.0 in
    ground (
      arith,
      lookup-settle p.call n (err too_long) m.settled,
      lookup-settle_self p.call (err too_long) m.settled,
    )

-- An acknowledgement settles the promise that waits for it by what it says, and no other promise;
-- its entry goes, so that another one for the same request changes nothing.
pub handle_ack_message_settles :
    (es : List Event) (id : String) (p : Pending) (good again : Bool) (code later : Option String)
    (n : ℕ)
    → Orderly start es
    → lookup id (run start es).pending_requests ≡ some p
    → let m = run start es in
      let m' = handle_ack_message id good code m in
      (lookup n m'.settled
        ≡ (if eqb n p.call then some (verdict good code) else lookup n m.settled))
      × (handle_ack_message id again later m' ≡ m')
unfolding handle_ack_message
handle_ack_message_settles es id p good again code later n h has =
    let m = run start es in
    let v = run-start-IsTracked es h in
    (
      ground (
        arith,
        v.waiting id p has,
        lookup-settle p.call n (verdict good code) m.settled,
        lookup-settle_self p.call (verdict good code) m.settled,
      ),
      ground (arith, lookup-delete id id m.pending_requests, eq_iff id id),
    )

-- Shutting down settles every promise that was ever made, and leaves no entry and no timer.
pub disconnect_settles :
    (es : List Event) (n t : ℕ)
    → Orderly start es
    → n < (run start es).next
    → let m' = disconnect (run start es) in
      (lookup n m'.settled ≢ none) × (m'.pending_requests ≡ []) × (lookup t m'.timers ≡ none)
unfolding disconnect
disconnect_settles es n t h lt =
    let m = run start es in
    let v = run-start-IsTracked es h in
    (
      disconnect-settled m v n lt,
      refl,
      elim (Option-cases (lookup t (clear_timers m.pending_requests m.timers))) [
        | inl gone ↦ gone
        | inr (j, armed) ↦ absurd (disconnect-no_stray m v t j armed)
      ],
    )
