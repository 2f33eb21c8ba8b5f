-- ===== src/Device/Once.antt =====
-- How often a command is handed out (backend/src/device/device-commands.service.ts).
use parking_gate_remote.Common.{
  ℕ, String, ◌≡◌, ◌∙◌, sym, refl, Bool, true, false, not, Option, none, some, List, [], ◌∷◌, ◌==◌,
  ◌&&◌, arith, eq_iff, eq_refl, inl, inr, select, reject, update_first, Bool-cases, Option-cases,
  All, any, any-append, length, ◌≤◌,
}
use parking_gate_remote.Mongo.{Mongo}
use parking_gate_remote.Device.{
  Action, Command, Answer, for_device, has_id, is_live, missing, is_nothing, new_command,
  set_pending, get_latest_pending, consume_pending,
}
use parking_gate_remote.Device.Delivery.{get_latest_pending-known, consume-latest}

-- A request to the service, at a time.
pub data Event : Type 0 where
  put : String → Action → Option String → Option ℕ → String → ℕ → Event
  poll : String → ℕ → Event

-- Not the creation of a document under this id.
abbrev pub spares : String → Event → Bool
spares i (put device_id action reason ttl_seconds id now) = not (id == i)
spares i (poll device_id now) = true

abbrev pub answers_id : String → Answer → Bool
answers_id i none = false
answers_id i (some d) = has_id i d

module _ (mongo : Mongo) where
  pub step : Event → List Command → Answer × List Command
  step (put device_id action reason ttl_seconds id now) ds =
      (none, set_pending mongo device_id action reason ttl_seconds id now ds)
  step (poll device_id now) ds = consume_pending mongo device_id now ds

  -- The answers to a sequence of requests, and what is left.
  pub run : List Event → List Command → List Answer × List Command
  run [] ds = ([], ds)
  run (e ∷ es) ds =
      let (a, ds') = step e ds in let (answers, ds'') = run es ds' in (a ∷ answers, ds'')

abbrev waits : String → Command → Bool
waits i d = has_id i d && missing d.consumed_at

abbrev mark : ℕ → Command → Command
mark now d = record d { consumed_at = some now }

waits-mark :
    (i id : String) (now : ℕ) (ds : List Command)
    → any (waits i) ds ≡ false
    → any (waits i) (update_first (has_id id) (mark now) ds) ≡ false
waits-mark i id now [] h = refl
waits-mark i id now (d ∷ ds) h = ground (arith, waits-mark i id now ds)

waits-reject :
    (i : String) (p : Command → Bool) (ds : List Command)
    → any (waits i) ds ≡ false
    → any (waits i) (reject p ds) ≡ false
waits-reject i p [] h = refl
waits-reject i p (d ∷ ds) h = ground (arith, waits-reject i p ds)

none_waits :
    (i : String) (ds : List Command) → length (select (has_id i) ds) ≤ 0 → any (waits i) ds ≡ false
none_waits i [] h = refl
none_waits i (d ∷ ds) h = elim (Bool-cases (has_id i d)) [
  | inl y ↦ ground (arith, y)
  | inr n ↦ ground (arith, n, none_waits i ds)
]

-- The one document with an id does not wait once it is marked.
waits-marked :
    (i : String) (now : ℕ) (ds : List Command)
    → length (select (has_id i) ds) ≤ 1
    → any (waits i) (update_first (has_id i) (mark now) ds) ≡ false
waits-marked i now [] h = refl
waits-marked i now (d ∷ ds) h = elim (Bool-cases (has_id i d)) [
  | inl y ↦ ground (arith, y, none_waits i ds)
  | inr n ↦ ground (arith, n, waits-marked i now ds)
]

-- A live document with an id waits.
live_waits :
    (i device_id : String) (now : ℕ) (d : Command) (ds : List Command)
    → has_id i d ≡ true
    → any (λ e. is_live device_id now e && has_id d.id e) ds ≡ true
    → any (waits i) ds ≡ true
live_waits i device_id now d [] y h = ground (arith, h)
live_waits i device_id now d (e ∷ ds) y h =
    ground (arith, eq_iff d.id i, eq_iff e.id d.id, eq_refl i, live_waits i device_id now d ds y)

module _ (mongo : Mongo) (i : String) where
  put-waits :
      (device_id : String) (action : Action) (reason : Option String) (ttl_seconds : Option ℕ)
      (id : String) (now : ℕ) (ds : List Command)
      → not (id == i) ≡ true
      → any (waits i) ds ≡ false
      → any (waits i) (set_pending mongo device_id action reason ttl_seconds id now ds) ≡ false
  unfolding set_pending
  put-waits device_id action reason ttl_seconds id now ds sp h =
      elim (Bool-cases (is_nothing action)) [
        | inl y ↦ ground (
          arith,
          y,
          mongo.delete_many_lem Command (for_device device_id) ds,
          waits-reject i (for_device device_id) ds h,
        )
        | inr n ↦ ground (
          arith,
          n,
          mongo.insert_lem Command (new_command device_id action reason ttl_seconds id now) ds,
          any-append (waits i) ds (new_command device_id action reason ttl_seconds id now ∷ []),
        )
      ]

  poll-waits :
      (device_id : String) (now : ℕ) (ds : List Command)
      → any (waits i) ds ≡ false
      → (answers_id i ((consume_pending mongo device_id now ds).0) ≡ false)
        × (any (waits i) ((consume_pending mongo device_id now ds).1) ≡ false)
  unfolding consume_pending
  poll-waits device_id now ds h = elim (Option-cases (get_latest_pending mongo device_id now ds)) [
    | inl n ↦ ground (arith, n)
    | inr (d, y) ↦
        let stored = get_latest_pending-known mongo device_id now ds d y in
        ground (
          arith,
          y,
          Bool-cases (has_id i d),
          live_waits i device_id now d ds,
          stored,
          mongo.update_one_lem Command (has_id d.id) (mark now) ds,
          waits-mark i d.id now ds h,
        )
  ]

  run-waits :
      (es : List Event) (ds : List Command)
      → All (λ e. spares i e ≡ true) es
      → any (waits i) ds ≡ false
      → any (answers_id i) ((run mongo es ds).0) ≡ false
  unfolding run step
  run-waits [] ds sp h = refl
  run-waits (put device_id action reason ttl_seconds id now ∷ es) ds (sp, sps) h =
      run-waits es (set_pending mongo device_id action reason ttl_seconds id now ds) sps
        (put-waits device_id action reason ttl_seconds id now ds sp h)
  run-waits (poll device_id now ∷ es) ds (sp, sps) h =
      let (silent, waits') = poll-waits device_id now ds h in
      ground (arith, silent, run-waits es ((consume_pending mongo device_id now ds).1) sps waits')

module _ (mongo : Mongo) where
  consume-waits :
      (device_id : String) (now : ℕ) (d : Command) (ds : List Command)
      → length (select (has_id d.id) ds) ≤ 1
      → (consume_pending mongo device_id now ds).0 ≡ some d
      → any (waits d.id) ((consume_pending mongo device_id now ds).1) ≡ false
  unfolding consume_pending
  consume-waits device_id now d ds one h = ground (
    arith,
    sym (consume-latest mongo device_id now ds) ∙ h,
    mongo.update_one_lem Command (has_id d.id) (mark now) ds,
    waits-marked d.id now ds one,
  )

  -- A command that was handed out to a device that polled, under an id that one document has, is
  -- not handed out again by any later requests, the creation of a document under its id excluded.
  pub consumed_once :
      (device_id : String) (now : ℕ) (d : Command) (ds : List Command) (es : List Event)
      → length (select (has_id d.id) ds) ≤ 1
      → (consume_pending mongo device_id now ds).0 ≡ some d
      → All (λ e. spares d.id e ≡ true) es
      → any (answers_id d.id) ((run mongo es ((consume_pending mongo device_id now ds).1)).0)
        ≡ false
  consumed_once device_id now d ds es one h sp =
      run-waits mongo d.id es ((consume_pending mongo device_id now ds).1) sp
        (consume-waits device_id now d ds one h)
