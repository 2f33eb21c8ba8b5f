-- ===== src/Gate/Mqtt/Overwrite.antt =====
-- What happens to a promise whose entry is overwritten
-- (backend/src/gate/mqtt-gate-device.service.ts, publishCommandAndWaitForAck).
use parking_gate_remote.Common.{
  ℕ, ◌<◌, String, ◌≡◌, ◌≢◌, inl, inr, Bool, true, Option, none, some, List, [], ◌∷◌, subst, subst,
  arith, eq_iff, Option-cases, Bool-cases, ◌&&◌, All,
}
use parking_gate_remote.Common.Assoc.{
  string_eq, number_eq, lookup, delete, lookup-insert, lookup-delete,
}
use parking_gate_remote.Common.Http.{Result, err}
use parking_gate_remote.Gate.Mqtt.{
  Pending, Mqtt, start, settle, publish_command, publish_failed, time_out, handle_ack_message,
  Event, created, connected, lost, ended, disconnects, publishes, publish_fails, acks, fires, step,
  run, too_long, not_sent, not_connected, verdict,
}
use parking_gate_remote.Gate.Mqtt.Tracked.{IsTracked, lookup-settle, entry_of_call, call-lt-next}
use parking_gate_remote.Gate.Mqtt.Promises.{Orderly, run-start-IsTracked}

-- A promise that was made, is not settled, and that no entry knows.
record IsOrphan (n : ℕ) (m : Mqtt) : Type 0 where
  made : n < m.next
  unsettled : lookup n m.settled ≡ none
  unknown : (id : String) (p : Pending) → lookup id m.pending_requests ≡ some p → p.call ≢ n

-- Events other than a shutdown and the error of the promise's own publication.
abbrev pub Leaves : ℕ → Event → Type 0
Leaves n disconnects = ⊥
Leaves n (publish_fails k id) = k ≢ n
Leaves n _ = Unit

settle-IsOrphan :
    (n c : ℕ) (r : Result (Unit {0})) (s : List (ℕ × Result (Unit {0})))
    → c ≢ n
    → lookup n s ≡ none
    → lookup n (settle c r s) ≡ none
settle-IsOrphan n c r s other h = ground (arith, lookup-settle c n r s)

publish_command-IsOrphan :
    (n : ℕ) (m : Mqtt) (id user : String) (now : ℕ)
    → IsOrphan n m
    → IsOrphan n (publish_command id user now m)
unfolding publish_command
publish_command-IsOrphan n m id user now o = elim (Bool-cases (m.has_client && m.is_connected)) [
  | inl on ↦ record {
    made = ground (arith, o.made);
    unsettled = ground (arith, o.unsettled);
    unknown = λ j p h. ground (
      arith,
      o.made,
      o.unknown j p,
      lookup-insert id j
          (record { call = m.next; timeout = m.next; request_id = id; start_time = now })
          m.pending_requests,
    );
  }
  | inr off ↦ record {
    made = ground (arith, o.made);
    unsettled = ground (
      arith,
      o.made,
      settle-IsOrphan n m.next (err not_connected) m.settled (λ e. omega (arith, o.made))
          o.unsettled,
    );
    unknown = λ j p h. ground (arith, o.unknown j p);
  }
]

delete-unknown :
    (n : ℕ) (m : Mqtt) (id : String)
    → IsOrphan n m
    → (j : String) (p : Pending) → lookup j (delete id m.pending_requests) ≡ some p
    → p.call ≢ n
delete-unknown n m id o j p h = ground (arith, lookup-delete id j m.pending_requests, o.unknown j p)

handle_ack_message-IsOrphan :
    (n : ℕ) (m : Mqtt) (id : String) (good : Bool) (code : Option String)
    → IsOrphan n m
    → IsOrphan n (handle_ack_message id good code m)
unfolding handle_ack_message
handle_ack_message-IsOrphan n m id good code o =
    elim (Option-cases (lookup id m.pending_requests)) [
      | inl unknown ↦ subst (IsOrphan n) (ground arith) o
      | inr (p, has) ↦ record {
        made = ground (arith, o.made);
        unsettled = ground (
          arith,
          settle-IsOrphan n p.call (verdict good code) m.settled (o.unknown id p has) o.unsettled,
        );
        unknown = λ j q h. delete-unknown n m id o j q (ground arith);
      }
    ]

time_out-IsOrphan : (n : ℕ) (m : Mqtt) (t : ℕ) → IsOrphan n m → IsOrphan n (time_out t m)
unfolding time_out
time_out-IsOrphan n m t o = elim (Option-cases (lookup t m.timers)) [
  | inl cleared ↦ subst (IsOrphan n) (ground arith) o
  | inr (id, armed) ↦ elim (Option-cases (lookup id m.pending_requests)) [
    | inl unknown ↦ record {
      made = ground (arith, o.made);
      unsettled = ground (arith, o.unsettled);
      unknown = λ j q h. o.unknown j q (ground arith);
    }
    | inr (p, has) ↦ record {
      made = ground (arith, o.made);
      unsettled = ground (
        arith,
        settle-IsOrphan n p.call (err too_long) m.settled (o.unknown id p has) o.unsettled,
      );
      unknown = λ j q h. delete-unknown n m id o j q (ground arith);
    }
  ]
]

step-IsOrphan : (n : ℕ) (m : Mqtt) (e : Event) → IsOrphan n m → Leaves n e → IsOrphan n (step m e)
unfolding step publish_failed
step-IsOrphan n m disconnects o h = absurd h
step-IsOrphan n m (publishes id user now) o h = publish_command-IsOrphan n m id user now o
step-IsOrphan n m (publish_fails k id) o h = record {
  made = o.made;
  unsettled = settle-IsOrphan n k (err not_sent) m.settled h o.unsettled;
  unknown = delete-unknown n m id o;
}
step-IsOrphan n m (acks id good code) o h = handle_ack_message-IsOrphan n m id good code o
step-IsOrphan n m (fires t) o h = time_out-IsOrphan n m t o
step-IsOrphan n m created o h = record {
  made = o.made;
  unsettled = o.unsettled;
  unknown = o.unknown;
}
step-IsOrphan n m connected o h = record {
  made = o.made;
  unsettled = o.unsettled;
  unknown = o.unknown;
}
step-IsOrphan n m lost o h = record { made = o.made; unsettled = o.unsettled; unknown = o.unknown }
step-IsOrphan n m ended o h = record { made = o.made; unsettled = o.unsettled; unknown = o.unknown }

run-IsOrphan :
    (n : ℕ) (m : Mqtt) (es : List Event) → IsOrphan n m → All (Leaves n) es → IsOrphan n (run m es)
unfolding run
run-IsOrphan n m [] o h = o
run-IsOrphan n m (e ∷ es) o h = run-IsOrphan n (step m e) es (step-IsOrphan n m e o h.0) h.1

overwrite-IsOrphan :
    (m : Mqtt) (id user : String) (now : ℕ) (p : Pending)
    → IsTracked m
    → lookup id m.pending_requests ≡ some p
    → (m.has_client && m.is_connected) ≡ true
    → IsOrphan p.call (publish_command id user now m)
unfolding publish_command
overwrite-IsOrphan m id user now p v has on = record {
  made = ground (arith, call-lt-next m id p v has);
  unsettled = ground (arith, v.waiting id p has);
  unknown = λ j q h. ground (
    arith,
    call-lt-next m id p v has,
    lookup-insert id j
        (record { call = m.next; timeout = m.next; request_id = id; start_time = now })
        m.pending_requests,
    entry_of_call m id p v has j q,
    eq_iff id j,
  );
}

-- When, after an orderly history, a command is sent although one with its request id still waits,
-- the promise of the earlier command is never settled after: not by an acknowledgement, not by
-- any timer, whatever follows but a shutdown or the error of its own publication.
pub overwritten_never_settles :
    (es later : List Event) (id user : String) (now : ℕ) (p : Pending)
    → Orderly start es
    → lookup id (run start es).pending_requests ≡ some p
    → ((run start es).has_client && (run start es).is_connected) ≡ true
    → All (Leaves p.call) later
    → lookup p.call (run (publish_command id user now (run start es)) later).settled ≡ none
overwritten_never_settles es later id user now p h has on rest =
    let o =
      run-IsOrphan p.call (publish_command id user now (run start es)) later
        (overwrite-IsOrphan (run start es) id user now p (run-start-IsTracked es h) has on) rest in
    o.unsettled
