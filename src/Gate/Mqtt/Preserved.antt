-- ===== src/Gate/Mqtt/Preserved.antt =====
-- Each operation of the device service over MQTT keeps its promises, entries and timers in step
-- (backend/src/gate/mqtt-gate-device.service.ts).
use parking_gate_remote.Common.{
  ℕ, suc, ◌≤◌, ◌<◌, String, ◌≡◌, ◌≢◌, refl, inl, inr, Bool, Option, none, some, List, [], ◌∷◌,
  arith, eq_iff, Option-cases, Bool-cases, eqb, ◌&&◌, subst,
}
use parking_gate_remote.Common.Assoc.{
  string_eq, number_eq, lookup, insert, delete, lookup-insert, lookup-delete, Values, Values-insert,
  Values-lookup,
}
use parking_gate_remote.Common.Http.{Result, err}
use parking_gate_remote.Gate.Mqtt.{
  Pending, Mqtt, start, settle, enter, publish_command, time_out, handle_ack_message, clear_timers,
  reject_all, disconnect, too_long, not_connected, disconnecting, verdict,
}
use parking_gate_remote.Gate.Mqtt.Tracked.{
  IsTracked, lookup-settle, lookup-settle_self, close-IsTracked, entry_of_call, call-lt-next,
}

pub start-IsTracked : IsTracked start
unfolding lookup
start-IsTracked = record {
  timed = λ id p h. cc;
  no_stray = λ t id h. cc;
  waiting = λ id p h. cc;
  old = tt;
  unused = λ n le. refl;
  accounted = λ n lt h. absurd (omega arith);
}

Values-mono :
    (n : ℕ) (ps : List (String × Pending))
    → Values (λ p. p.call < n) ps
    → Values (λ p. p.call < suc n) ps
Values-mono n [] h = tt
Values-mono n ((_, p) ∷ ps) h = (omega arith, Values-mono n ps h.1)

module _ (m : Mqtt) (id user : String) (now : ℕ) (v : IsTracked m) where
  abbrev entry : Pending
  entry = record { call = m.next; timeout = m.next; request_id = id; start_time = now }

  enter-no_stray :
      lookup id m.pending_requests ≡ none
      → (t : ℕ) (j : String) → lookup t (insert m.next id m.timers) ≡ some j
      → (p : Pending) × (lookup j (insert id entry m.pending_requests) ≡ some p) × (p.timeout ≡ t)
  enter-no_stray free t j h = elim (Bool-cases (eqb m.next t)) [
    | inl new ↦ (
      entry,
      ground (
        arith,
        lookup-insert m.next t id m.timers,
        lookup-insert id j entry m.pending_requests,
        eq_iff id j,
      ),
      ground arith,
    )
    | inr older ↦
        let (p, has, is) = v.no_stray t j (ground (arith, lookup-insert m.next t id m.timers)) in
        (p, ground (arith, lookup-insert id j entry m.pending_requests, eq_iff id j), is)
  ]

  enter-accounted :
      lookup id m.pending_requests ≡ none
      → (n : ℕ) → n < suc m.next
      → lookup n m.settled ≡ none
      → (j : String) × (p : Pending) × (lookup j (insert id entry m.pending_requests) ≡ some p)
        × (p.call ≡ n)
  enter-accounted free n lt h = elim (Bool-cases (eqb m.next n)) [
    | inl new ↦ (
      id,
      entry,
      ground (arith, lookup-insert id id entry m.pending_requests, eq_iff id id),
      ground arith,
    )
    | inr older ↦
        let (j, p, has, is) = v.accounted n (ground arith) h in
        (j, p, ground (arith, lookup-insert id j entry m.pending_requests, eq_iff id j), is)
  ]

  enter-IsTracked : lookup id m.pending_requests ≡ none → IsTracked (enter id user now m)
  enter-IsTracked free = record {
    timed = λ j p h. ground (
      arith,
      lookup-insert id j entry m.pending_requests,
      eq_iff id j,
      lookup-insert m.next p.timeout id m.timers,
      v.timed j p,
      call-lt-next m j p v,
    );
    no_stray = enter-no_stray free;
    waiting = λ j p h.
        ground (arith, lookup-insert id j entry m.pending_requests, v.waiting j p, v.unused m.next);
    old =
        Values-insert (λ p. p.call < suc m.next) id entry m.pending_requests (omega arith)
          (Values-mono m.next m.pending_requests v.old);
    unused = λ n le. v.unused n (omega arith);
    accounted = enter-accounted free;
  }

-- A promise that is settled as soon as it is made.
pub refuse-IsTracked :
    (m : Mqtt) (r : Result (Unit {0}))
    → IsTracked m
    → IsTracked (record m { settled = settle m.next r m.settled; next = suc m.next })
refuse-IsTracked m r v = record {
  timed = v.timed;
  no_stray = v.no_stray;
  waiting = λ j p h.
      ground (arith, v.waiting j p, lookup-settle m.next p.call r m.settled, call-lt-next m j p v);
  old = Values-mono m.next m.pending_requests v.old;
  unused = λ n le. ground (arith, v.unused n, lookup-settle m.next n r m.settled);
  accounted = λ n lt h.
      v.accounted n (ground (arith, lookup-settle_self m.next r m.settled))
        (ground (arith, lookup-settle m.next n r m.settled));
}

pub publish_command-IsTracked :
    (m : Mqtt) (id user : String) (now : ℕ)
    → IsTracked m
    → lookup id m.pending_requests ≡ none
    → IsTracked (publish_command id user now m)
unfolding publish_command
publish_command-IsTracked m id user now v free =
    elim (Bool-cases (m.has_client && m.is_connected)) [
      | inl on ↦ subst IsTracked (ground arith) (enter-IsTracked m id user now v free)
      | inr off ↦ subst IsTracked (ground arith) (refuse-IsTracked m (err not_connected) v)
    ]

pub clear_timers-some :
    (ps : List (String × Pending)) (ts : List (ℕ × String)) (t : ℕ) (j : String)
    → lookup t (clear_timers ps ts) ≡ some j
    → (lookup t ts ≡ some j) × Values (λ p. p.timeout ≢ t) ps
unfolding clear_timers
clear_timers-some [] ts t j h = (h, tt)
clear_timers-some ((id, p) ∷ ps) ts t j h =
    let (armed, others) = clear_timers-some ps (delete p.timeout ts) t j h in
    let l = lookup-delete p.timeout t ts in (ground arith, (ground arith, others))

pub reject_all-none :
    (ps : List (String × Pending)) (s : List (ℕ × Result (Unit {0}))) (n : ℕ)
    → lookup n (reject_all ps s) ≡ none
    → (lookup n s ≡ none) × Values (λ p. p.call ≢ n) ps
unfolding reject_all
reject_all-none [] s n h = (h, tt)
reject_all-none ((id, p) ∷ ps) s n h =
    let (open_, others) = reject_all-none ps (settle p.call (err disconnecting) s) n h in
    let l = lookup-settle p.call n (err disconnecting) s in
    let own = lookup-settle_self p.call (err disconnecting) s in
    (ground arith, (ground arith, others))

pub reject_all-unused :
    (ps : List (String × Pending)) (s : List (ℕ × Result (Unit {0}))) (next n : ℕ)
    → Values (λ p. p.call < next) ps
    → next ≤ n
    → lookup n s ≡ none
    → lookup n (reject_all ps s) ≡ none
unfolding reject_all
reject_all-unused [] s next n old le h = h
reject_all-unused ((id, p) ∷ ps) s next n old le h =
    reject_all-unused ps (settle p.call (err disconnecting) s) next n old.1 le
      (ground (arith, lookup-settle p.call n (err disconnecting) s))

pub disconnect-no_stray :
    (m : Mqtt)
    → IsTracked m
    → (t : ℕ) (j : String) → lookup t (clear_timers m.pending_requests m.timers) ≢ some j
disconnect-no_stray m v t j h =
    let (armed, others) = clear_timers-some m.pending_requests m.timers t j h in
    let (p, has, is) = v.no_stray t j armed in
    Values-lookup (λ p. p.timeout ≢ t) j m.pending_requests p others has is

pub disconnect-settled :
    (m : Mqtt)
    → IsTracked m
    → (n : ℕ) → n < m.next
    → lookup n (reject_all m.pending_requests m.settled) ≢ none
disconnect-settled m v n lt h =
    let (open_, others) = reject_all-none m.pending_requests m.settled n h in
    let (j, p, has, is) = v.accounted n lt open_ in
    Values-lookup (λ p. p.call ≢ n) j m.pending_requests p others has is

pub disconnect-IsTracked : (m : Mqtt) → IsTracked m → IsTracked (disconnect m)
unfolding disconnect lookup
disconnect-IsTracked m v = record {
  timed = λ j p h. cc;
  no_stray = λ t j h. absurd (disconnect-no_stray m v t j h);
  waiting = λ j p h. cc;
  old = tt;
  unused = λ n le. reject_all-unused m.pending_requests m.settled m.next n v.old le (v.unused n le);
  accounted = λ n lt h. absurd (disconnect-settled m v n lt h);
}

pub handle_ack_message-IsTracked :
    (m : Mqtt) (id : String) (good : Bool) (code : Option String)
    → IsTracked m
    → IsTracked (handle_ack_message id good code m)
unfolding handle_ack_message
handle_ack_message-IsTracked m id good code v = elim (Option-cases (lookup id m.pending_requests)) [
  | inl unknown ↦ subst IsTracked (ground arith) v
  | inr (p, has) ↦ subst IsTracked (ground (arith, v.timed id p has)) (
      close-IsTracked m id p.call (verdict good code) v (entry_of_call m id p v has)
        (call-lt-next m id p v has))
]

pub time_out-IsTracked : (m : Mqtt) (t : ℕ) → IsTracked m → IsTracked (time_out t m)
unfolding time_out
time_out-IsTracked m t v = elim (Option-cases (lookup t m.timers)) [
  | inl cleared ↦ subst IsTracked (ground arith) v
  | inr (id, armed) ↦
      let (p, has, is) = v.no_stray t id armed in
      subst IsTracked (ground (arith, v.timed id p has)) (
        close-IsTracked m id p.call (err too_long) v (entry_of_call m id p v has)
          (call-lt-next m id p v has))
]
