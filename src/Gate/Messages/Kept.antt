-- ===== src/Gate/Messages/Kept.antt =====
-- What `handleMessage` of backend/src/gate/mqtt-gate-device.service.ts keeps of the two
-- collections, whatever a message carries.
use parking_gate_remote.Common.{
  ℕ, ◌≤◌, String, inl, inr, ◌≡◌, refl, ap, sym, subst, Bool, true, false, Option, none, some, List,
  [], ◌∷◌, ◌++◌, ◌==◌, select, every, any, update_first, length, select-append, length-append,
  Bool-cases, arith, eq_iff,
}
use parking_gate_remote.Common.Json.{Json, boolean, number, field}
use parking_gate_remote.Mongo.{Mongo}
use parking_gate_remote.Gate.Messages.{
  DeviceStatus, Inbox, is_status_of, put_status, store_status, cast_field, handle_status_message,
  handle_message,
}
use parking_gate_remote.Gate.Messages.Bounds.{log_bounded, handle_diagnostics_message-bounded}

-- Each device has at most one status.
abbrev pub IsSingle : List DeviceStatus → Type 0
IsSingle ss = (d : String) → length (select (is_status_of d) ss) ≤ 1

-- Each device has at most one status, and each diagnostic log is bounded: 1 to 100 entries, and
-- no text of it is longer than the source cuts it.
abbrev pub IsKept : Inbox → Type 0
IsKept i = IsSingle i.statuses × every log_bounded i.diagnostics ≡ true

none_selected :
    (p : DeviceStatus → Bool) (ss : List DeviceStatus) → any p ss ≡ false → length (select p ss) ≤ 0
none_selected p [] h = omega arith
none_selected p (s ∷ ss) h = ground (arith, none_selected p ss)

replaced-length :
    (s : DeviceStatus) (d : String) (ss : List DeviceStatus)
    → length (select (is_status_of d) (update_first (is_status_of s.device_id) (λ old. s) ss))
      ≡ length (select (is_status_of d) ss)
replaced-length s d [] = refl
replaced-length s d (x ∷ ss) = ground (
  arith,
  replaced-length s d ss,
  eq_iff x.device_id s.device_id,
  eq_iff s.device_id d,
  eq_iff x.device_id d,
)

appended-length :
    (s : DeviceStatus) (d : String) (ss : List DeviceStatus)
    → any (is_status_of s.device_id) ss ≡ false
    → length (select (is_status_of d) ss) ≤ 1
    → length (select (is_status_of d) (ss ++ s ∷ [])) ≤ 1
appended-length s d ss h k = elim (Bool-cases (s.device_id == d)) [
  | inl e ↦ ground (
    arith,
    ap length (select-append (is_status_of d) ss (s ∷ [])),
    length-append (select (is_status_of d) ss) (select (is_status_of d) (s ∷ [])),
    none_selected (is_status_of s.device_id) ss h,
    eq_iff s.device_id d,
  )
  | inr e ↦ ground (
    arith,
    ap length (select-append (is_status_of d) ss (s ∷ [])),
    length-append (select (is_status_of d) ss) (select (is_status_of d) (s ∷ [])),
  )
]

module _ (mongo : Mongo) where
  put_status-IsSingle :
      (s : DeviceStatus) (ss : List DeviceStatus) → IsSingle ss → IsSingle (put_status mongo s ss)
  put_status-IsSingle s ss h d = elim (Bool-cases (any (is_status_of s.device_id) ss)) [
    | inl e ↦ ground (
      arith,
      mongo.upsert-update DeviceStatus (is_status_of s.device_id) (λ old. s) s ss e,
      replaced-length s d ss,
      h d,
    )
    | inr e ↦
        subst (λ xs. length (select (is_status_of d) xs) ≤ 1)
          (sym (mongo.upsert-insert DeviceStatus (is_status_of s.device_id) (λ old. s) s ss e))
          (appended-length s d ss e (h d))
  ]

  store_status-IsSingle :
      (unwritten : Bool) (now : ℕ) (raw : Json) (device_id : Option String)
      (online updated_at : Option Json) (ss : List DeviceStatus)
      → IsSingle ss
      → IsSingle (store_status mongo unwritten now raw device_id online updated_at ss)
  store_status-IsSingle unwritten now raw (some device_id) (some (boolean online))
        (some (number updated_at)) ss h d =
      ground (
        arith,
        h d,
        put_status-IsSingle
            (record { device_id = device_id; online = online; last_seen_at = now; raw = raw }) ss h
            d,
      )
  store_status-IsSingle unwritten now raw _ _ _ ss h d = ground (arith, h d)

  module _ (to_text : Option Json → String) (cast : Json → Option String) where
    handle_status_message-IsSingle :
        (unwritten : Bool) (now : ℕ) (status : Json) (ss : List DeviceStatus)
        → IsSingle ss
        → IsSingle (handle_status_message to_text mongo cast unwritten now status ss)
    unfolding handle_status_message
    handle_status_message-IsSingle unwritten now status ss h d = ground (
      arith,
      h d,
      store_status-IsSingle unwritten now status
          (cast_field to_text mongo cast (field "deviceId" status)) (field "online" status)
          (field "updatedAt" status) ss h d,
    )

    -- Whatever topic a message comes on and whatever it carries, if it can be read at all, and
    -- whether the write fails or not: when each device had at most one status and each diagnostic
    -- log 1 to 100 entries and the texts within the lengths that the source cuts them to, in code
    -- points, that is so afterwards.
    pub handle_message-IsKept :
        (ack_topic status_topic diagnostics_topic topic : String) (payload : Option Json)
        (unwritten : Bool) (now : ℕ) (i : Inbox)
        → IsKept i
        → IsKept (
            handle_message to_text mongo cast ack_topic status_topic diagnostics_topic topic payload
              unwritten now i)
    unfolding handle_message
    handle_message-IsKept ack_topic status_topic diagnostics_topic topic none unwritten now i h = h
    handle_message-IsKept ack_topic status_topic diagnostics_topic topic (some body) unwritten now i
          h =
        (
          λ d.
              ground
                (arith, h.0 d, handle_status_message-IsSingle unwritten now body i.statuses h.0 d),
          ground (
            arith,
            h.1,
            handle_diagnostics_message-bounded to_text mongo unwritten now body i.diagnostics h.1,
          ),
        )
