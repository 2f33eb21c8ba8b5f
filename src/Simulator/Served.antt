-- ===== src/Simulator/Served.antt =====
-- The simulated microcontroller (mcu-sim/src/index.js) and the server that reads what it publishes
-- (backend/src/gate/mqtt-gate-device.service.ts).
use parking_gate_remote.Common.{
  ℕ, zero, suc, ◌+◌, ◌≤◌, String, pos, ◌≡◌, ◌≢◌, refl, ap, ◌∙◌, false, Option, none, some, List, [],
  ◌∷◌, ◌++◌, ◌==◌, if◌then◌else◌, Bool-cases, inl, inr, arith, eq_iff,
}
use parking_gate_remote.Common.Json.{Json, text, find_member, Fields, end, member, elements}
use parking_gate_remote.Mongo.{Mongo}
use parking_gate_remote.Gate.Messages.{
  DeviceDiagnosticLog, DiagnosticLogEntry, slice, short, to_log, to_entry, valid_entries, make_log,
  handle_diagnostics_message,
}
use parking_gate_remote.Simulator.{
  Settings, diagnostic_entries, event_entry, optional, publish_diagnostics,
}
use Prim.Native.String
use Prim.Native.String.{count}

slice-fits : (n : ℕ) (s : String) → count s ≤ n → slice n s ≡ s
slice-fits zero Prim.Native.String.[] h = refl
slice-fits (suc n) Prim.Native.String.[] h = refl
slice-fits zero (Prim.Native.String.◌∷◌ c s) h =
    ground (arith, h, Prim.Native.String.count.cons c s)
slice-fits (suc n) (Prim.Native.String.◌∷◌ c s) h =
    ap (λ t. Prim.Native.String.◌∷◌ c t)
      (slice-fits n s (omega (arith, h, Prim.Native.String.count.cons c s)))

-- a text that is left out if it is empty
abbrev given_text : String → Option String
given_text s = if s == "" then none else some s

abbrev entry : ℕ → String → String → Option String → DiagnosticLogEntry
entry ts level event message = record {
  ts = pos ts;
  level = level;
  event = event;
  message = message;
}

-- What is to be kept of a report.
abbrev pub reported : Option ℕ → ℕ → List DiagnosticLogEntry
reported none now = entry now "info" "connection_restored" none ∷ []
reported (some lost_at) now =
    entry lost_at "warn" "connection_lost" none
    ∷ entry (lost_at + 1500) "warn" "reconnect_attempt" (some "n=1")
    ∷ entry (lost_at + 4000) "warn" "reconnect_attempt" (some "n=2")
    ∷ entry now "info" "connection_restored" none
    ∷ []

module _ (to_text : Option Json → String) (same : (s : String) → to_text (some (text s)) ≡ s) where
  restored :
      (ts : ℕ)
      → to_entry to_text (event_entry ts "info" "connection_restored" end)
        ≡ entry ts "info" "connection_restored" none
  restored ts = ap (λ t. entry ts "info" (slice 64 t) none) (same "connection_restored")

  lost :
      (ts : ℕ)
      → to_entry to_text (event_entry ts "warn" "connection_lost" end)
        ≡ entry ts "warn" "connection_lost" none
  lost ts = ap (λ t. entry ts "warn" (slice 64 t) none) (same "connection_lost")

  first_attempt :
      (ts : ℕ)
      → to_entry to_text
          (event_entry ts "warn" "reconnect_attempt" (member "message" (text "n=1") end))
        ≡ entry ts "warn" "reconnect_attempt" (some "n=1")
  first_attempt ts =
      ap (λ t. entry ts "warn" (slice 64 t) (some (slice 256 (to_text (some (text "n=1"))))))
        (same "reconnect_attempt")
      ∙ ap (λ t. entry ts "warn" "reconnect_attempt" (some (slice 256 t))) (same "n=1")

  second_attempt :
      (ts : ℕ)
      → to_entry to_text
          (event_entry ts "warn" "reconnect_attempt" (member "message" (text "n=2") end))
        ≡ entry ts "warn" "reconnect_attempt" (some "n=2")
  second_attempt ts =
      ap (λ t. entry ts "warn" (slice 64 t) (some (slice 256 (to_text (some (text "n=2"))))))
        (same "reconnect_attempt")
      ∙ ap (λ t. entry ts "warn" "reconnect_attempt" (some (slice 256 t))) (same "n=2")

  valid_entries-reported :
      (lost_at : Option ℕ) (now : ℕ)
      → valid_entries to_text (elements (diagnostic_entries lost_at now)) ≡ reported lost_at now
  unfolding diagnostic_entries
  valid_entries-reported none now = ap (λ e. e ∷ []) (restored now)
  valid_entries-reported (some lost_at) now = ground (
    arith,
    lost lost_at,
    first_attempt (lost_at + 1500),
    second_attempt (lost_at + 4000),
    restored now,
  )

  kept_short : (n : ℕ) (s : String) → count s ≤ n → short to_text n (some (text s)) ≡ some s
  kept_short n s h = ap (λ t. some (slice n t)) (same s) ∙ ap some (slice-fits n s h)

  -- the two fields at the end of a report
  abbrev tail : Settings → Fields
  tail s = optional "fwVersion" s.fw_version (optional "sessionId" s.session_id end)

  version_kept :
      (s : Settings)
      → count s.fw_version ≤ 32
      → short to_text 32 (find_member "fwVersion" (tail s)) ≡ given_text s.fw_version
  version_kept s h = elim (Bool-cases (s.fw_version == "")) [
    | inl e ↦ elim (Bool-cases (s.session_id == "")) [
      | inl k ↦ ground (arith, e, k)
      | inr k ↦ ground (arith, e, k)
    ]
    | inr e ↦ ground (arith, e, kept_short 32 s.fw_version h)
  ]

  session_kept :
      (s : Settings)
      → count s.session_id ≤ 64
      → short to_text 64 (find_member "sessionId" (tail s)) ≡ given_text s.session_id
  session_kept s h = elim (Bool-cases (s.fw_version == "")) [
    | inl e ↦ elim (Bool-cases (s.session_id == "")) [
      | inl k ↦ ground (arith, e, k)
      | inr k ↦ ground (arith, e, k, kept_short 64 s.session_id h)
    ]
    | inr e ↦ elim (Bool-cases (s.session_id == "")) [
      | inl k ↦ ground (arith, e, k)
      | inr k ↦ ground (arith, e, k, kept_short 64 s.session_id h)
    ]
  ]

  -- The log that a report is to leave.
  abbrev pub reported_log : Settings → Option ℕ → ℕ → ℕ → DeviceDiagnosticLog
  reported_log s lost_at now received = record {
    device_id = s.device_id;
    received_at = received;
    session_id = given_text s.session_id;
    fw_version = given_text s.fw_version;
    entries = reported lost_at now;
  }

  to_log-reported :
      (s : Settings) (lost_at : Option ℕ) (now received : ℕ)
      → count s.device_id ≤ 128
      → count s.session_id ≤ 64
      → count s.fw_version ≤ 32
      → to_log to_text s.device_id received
          (publish_diagnostics s lost_at now)
          (reported lost_at now)
        ≡ reported_log s lost_at now received
  unfolding publish_diagnostics
  to_log-reported s lost_at now received h k w =
      ground (arith, slice-fits 128 s.device_id h, session_kept s k, version_kept s w)

  module _ (mongo : Mongo) where
    make_log-kept :
        (body : Json) (device_id : String) (received : ℕ) (lost_at : Option ℕ) (now : ℕ)
        (ls : List DeviceDiagnosticLog)
        → device_id ≢ ""
        → make_log to_text mongo false received body device_id (reported lost_at now) ls
          ≡ ls ++ to_log to_text device_id received body (reported lost_at now) ∷ []
    make_log-kept body device_id received none now ls h = ground (
      arith,
      h,
      eq_iff device_id "",
      mongo.insert_lem DeviceDiagnosticLog
          (to_log to_text device_id received body (reported none now)) ls,
    )
    make_log-kept body device_id received (some lost_at) now ls h = ground (
      arith,
      h,
      eq_iff device_id "",
      mongo.insert_lem DeviceDiagnosticLog
          (to_log to_text device_id received body (reported (some lost_at) now)) ls,
    )

    -- A report of the simulated microcontroller, whose id is not empty and whose texts are within the
    -- lengths that the server cuts them to, is kept whole: the server adds one log with the id, the
    -- session and the version, and with the entries of the report in order, if the write does not
    -- fail. `String` of a text is taken to be the text.
    pub publish_diagnostics-handle_diagnostics_message :
        (s : Settings) (lost_at : Option ℕ) (now received : ℕ) (ls : List DeviceDiagnosticLog)
        → s.device_id ≢ ""
        → count s.device_id ≤ 128
        → count s.session_id ≤ 64
        → count s.fw_version ≤ 32
        → handle_diagnostics_message to_text mongo false received
            (publish_diagnostics s lost_at now)
            ls
          ≡ ls ++ reported_log s lost_at now received ∷ []
    unfolding handle_diagnostics_message publish_diagnostics
    publish_diagnostics-handle_diagnostics_message s lost_at now received ls ne h k w =
        let body = publish_diagnostics s lost_at now in
        ap (λ es. make_log to_text mongo false received body s.device_id es ls)
          (valid_entries-reported lost_at now)
        ∙ make_log-kept body s.device_id received lost_at now ls ne
        ∙ ap (λ l. ls ++ l ∷ []) (to_log-reported s lost_at now received h k w)
