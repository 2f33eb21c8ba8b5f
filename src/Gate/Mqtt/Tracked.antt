-- ===== src/Gate/Mqtt/Tracked.antt =====
-- Bookkeeping of the device service over MQTT
-- (backend/src/gate/mqtt-gate-device.service.ts): promises, entries and timers correspond.
use parking_gate_remote.Common.{
  ℕ, ◌≤◌, ◌<◌, String, ◌≡◌, ◌≢◌, ◌⊎◌, ◌↔◌, none, some, List, arith, eq_iff, subst,
}
use parking_gate_remote.Common.Assoc.{
  string_eq, number_eq, lookup, delete, lookup-insert, lookup-delete, Values, Values-delete,
  Values-lookup,
}
use parking_gate_remote.Common.Http.{Result}
use parking_gate_remote.Gate.Mqtt.{Pending, Mqtt, settle}

-- Every promise is settled or has an entry, and entries and timers belong to one another.
pub record IsTracked (m : Mqtt) : Type 0 where
  pub timed :
      (id : String) (p : Pending)
      → lookup id m.pending_requests ≡ some p
      → (lookup p.timeout m.timers ≡ some id) × (p.call ≡ p.timeout)
  pub no_stray :
      (t : ℕ) (id : String)
      → lookup t m.timers ≡ some id
      → (p : Pending) × (lookup id m.pending_requests ≡ some p) × (p.timeout ≡ t)
  pub waiting :
      (id : String) (p : Pending)
      → lookup id m.pending_requests ≡ some p
      → lookup p.call m.settled ≡ none
  pub old : Values (λ p. p.call < m.next) m.pending_requests
  pub unused : (n : ℕ) → m.next ≤ n → lookup n m.settled ≡ none
  pub accounted :
      (n : ℕ)
      → n < m.next
      → lookup n m.settled ≡ none
      → (id : String) × (p : Pending) × (lookup id m.pending_requests ≡ some p) × (p.call ≡ n)

pub lookup-settle :
    (c n : ℕ) (r : Result (Unit {0})) (s : List (ℕ × Result (Unit {0})))
    → (lookup n (settle c r s) ≡ lookup n s)
      ⊎ ((lookup n s ≡ none) × (c ≡ n) × (lookup n (settle c r s) ≡ some r))
unfolding settle
lookup-settle c n r s = ground (arith, lookup-insert c n r s)

pub lookup-settle_self :
    (c : ℕ) (r : Result (Unit {0})) (s : List (ℕ × Result (Unit {0})))
    → lookup c (settle c r s) ≢ none
unfolding settle
lookup-settle_self c r s = ground (arith, lookup-insert c c r s)

-- What the handlers do to an entry: it goes with its timer, and its promise is settled.
abbrev pub close : String → ℕ → Result (Unit {0}) → Mqtt → Mqtt
close id n r m = record m {
  timers = delete n m.timers;
  pending_requests = delete id m.pending_requests;
  settled = settle n r m.settled;
}

module _ (m : Mqtt) (id : String) (n : ℕ) (r : Result (Unit {0})) (v : IsTracked m)
    (only : (j : String) (p : Pending)
      → lookup j m.pending_requests ≡ some p
      → (p.call ≡ n) ↔ (j ≡ id)) where
  kept :
      (j : String) (p : Pending)
      → lookup j (delete id m.pending_requests) ≡ some p
      → (lookup j m.pending_requests ≡ some p) × (p.call ≢ n)
  kept j p h = ground (arith, lookup-delete id j m.pending_requests, eq_iff id j, only j p)

  close-timed :
      (j : String) (p : Pending)
      → lookup j (delete id m.pending_requests) ≡ some p
      → (lookup p.timeout (delete n m.timers) ≡ some j) × (p.call ≡ p.timeout)
  close-timed j p h = ground (arith, kept j p h, v.timed j p, lookup-delete n p.timeout m.timers)

  close-no_stray :
      (t : ℕ) (j : String)
      → lookup t (delete n m.timers) ≡ some j
      → (p : Pending) × (lookup j (delete id m.pending_requests) ≡ some p) × (p.timeout ≡ t)
  close-no_stray t j h =
      let armed : lookup t m.timers ≡ some j = ground (arith, lookup-delete n t m.timers) in
      let other : n ≢ t = ground (arith, lookup-delete n t m.timers) in
      let (p, has, is) = v.no_stray t j armed in
      (
        p,
        ground (
          arith,
          v.timed j p has,
          only j p has,
          lookup-delete id j m.pending_requests,
          eq_iff id j,
        ),
        is,
      )

  close-waiting :
      (j : String) (p : Pending)
      → lookup j (delete id m.pending_requests) ≡ some p
      → lookup p.call (settle n r m.settled) ≡ none
  close-waiting j p h =
      ground (arith, kept j p h, v.waiting j p, lookup-settle n p.call r m.settled)

  close-accounted :
      (k : ℕ)
      → k < m.next
      → lookup k (settle n r m.settled) ≡ none
      → (j : String) × (p : Pending) × (lookup j (delete id m.pending_requests) ≡ some p)
        × (p.call ≡ k)
  close-accounted k lt h =
      let unsettled : lookup k m.settled ≡ none = ground (arith, lookup-settle n k r m.settled) in
      let (j, p, has, is) = v.accounted k lt unsettled in
      (
        j,
        p,
        ground (
          arith,
          lookup-settle_self n r m.settled,
          only j p has,
          lookup-delete id j m.pending_requests,
          eq_iff id j,
        ),
        is,
      )

  pub close-IsTracked : n < m.next → IsTracked (close id n r m)
  close-IsTracked lt = record {
    timed = close-timed;
    no_stray = close-no_stray;
    waiting = close-waiting;
    old = Values-delete (λ p. p.call < m.next) id m.pending_requests v.old;
    unused = λ k le. ground (arith, v.unused k le, lookup-settle n k r m.settled);
    accounted = close-accounted;
  }

-- The entry of a request is the only one of its call.
pub entry_of_call :
    (m : Mqtt) (id : String) (p : Pending)
    → IsTracked m
    → lookup id m.pending_requests ≡ some p
    → (j : String) (q : Pending) → lookup j m.pending_requests ≡ some q
    → (q.call ≡ p.call) ↔ (j ≡ id)
entry_of_call m id p v h j q k = (
  λ same.
      let (t, c) = v.timed id p h in
      let (t', c') = v.timed j q k in
      let times : q.timeout ≡ p.timeout = omega arith in
      let at_p : lookup p.timeout m.timers ≡ some j =
        subst (λ t. lookup t m.timers ≡ some j) times t' in
      ground arith,
  λ same.
      let both : lookup id m.pending_requests ≡ some q =
        subst (λ i. lookup i m.pending_requests ≡ some q) same k in
      ground arith,
)

pub call-lt-next :
    (m : Mqtt) (id : String) (p : Pending)
    → IsTracked m
    → lookup id m.pending_requests ≡ some p
    → p.call < m.next
call-lt-next m id p v h = Values-lookup (λ p. p.call < m.next) id m.pending_requests p v.old h
