-- ===== src/Gate/Retry/Attempts.antt =====
-- How many attempts `openGate` makes and what comes of them, for any device
-- (backend/src/gate/gate-device.service.ts, backend/src/gate/mqtt-gate-device.service.ts).
use parking_gate_remote.Common.{
  ℕ, zero, suc, ◌+◌, ◌<◌, ◌≡◌, refl, ◌⊎◌, inl, inr, true, false, arith, Bool-cases,
}
use parking_gate_remote.Common.Http.{Thrown, http, bad_gateway, Result, ok, err, is_timeout}
use parking_gate_remote.Gate.Log.{McuMetadata}
use parking_gate_remote.Gate.Retry.{device_message, attempt_from, open_gate}

module _ {S : Type 0} (call_mcu : ℕ → S → Result (Unit {0}) × S) where
  -- `Refused n k s t`: the k attempts from number n on, made from state s, all end in an error
  -- other than a timeout, and lead to state t.
  pub data Refused : ℕ → ℕ → S → S → Type 0 where
    no_attempt : {n : ℕ} {s : S} → Refused n zero s s
    one_more :
        {n k : ℕ} {s t u : S} (e : Thrown)
        → call_mcu n s ≡ (err e, t)
        → is_timeout e ≡ false
        → Refused (suc n) k t u
        → Refused n (suc k) s u

  -- The three ways in which a loop of `left` rounds from attempt `n` ends.
  abbrev pub Ends : ℕ → ℕ → S → Result McuMetadata × S → Type 0
  Ends left n s (r, t) =
      ((k : ℕ) × (u : S) × (k < left)
        × Refused n k s u
        × (call_mcu (n + k) u ≡ (ok tt, t))
        × (r ≡ ok (record { attempted = true; timeout = false; retries = n + k })))
      ⊎ ((k : ℕ) × (u : S) × (e : Thrown) × (k < left)
          × Refused n k s u
          × (call_mcu (n + k) u ≡ (err e, t))
          × (is_timeout e ≡ true)
          × (r ≡ err e))
      ⊎ (Refused n left s t × (r ≡ err (http bad_gateway device_message)))

  -- A refused attempt in front of a loop's end.
  Ends-later :
      (left n : ℕ) (s t : S) (e : Thrown) (r : Result McuMetadata) (u : S)
      → call_mcu n s ≡ (err e, t)
      → is_timeout e ≡ false
      → Ends left (suc n) t (r, u)
      → Ends (suc left) n s (r, u)
  Ends-later left n s t e r u h plain (inl (k, v, lt, refused, call, is)) =
      let shift : suc n + k ≡ n + suc k = omega arith in
      inl (suc k, v, omega arith, one_more e h plain refused, rw (← shift) call, rw (← shift) is)
  Ends-later left n s t e r u h plain (inr (inl (k, v, e', lt, refused, call, late, is))) =
      let shift : suc n + k ≡ n + suc k = omega arith in
      inr (inl (suc k, v, e', omega arith, one_more e h plain refused, rw (← shift) call, late, is))
  Ends-later left n s t e r u h plain (inr (inr (refused, is))) =
      inr (inr (one_more e h plain refused, is))

  attempt_from-ok :
      (left n : ℕ) (s t : S)
      → call_mcu n s ≡ (ok tt, t)
      → attempt_from call_mcu (suc left) n s
        ≡ (ok (record { attempted = true; timeout = false; retries = n }), t)
  unfolding attempt_from
  attempt_from-ok left n s t h = ground arith

  attempt_from-timeout :
      (left n : ℕ) (s t : S) (e : Thrown)
      → call_mcu n s ≡ (err e, t)
      → is_timeout e ≡ true
      → attempt_from call_mcu (suc left) n s ≡ (err e, t)
  unfolding attempt_from
  attempt_from-timeout left n s t e h late = ground arith

  attempt_from-refused :
      (left n : ℕ) (s t : S) (e : Thrown)
      → call_mcu n s ≡ (err e, t)
      → is_timeout e ≡ false
      → attempt_from call_mcu (suc left) n s ≡ attempt_from call_mcu left (suc n) t
  unfolding attempt_from
  attempt_from-refused left n s t e h plain = ground arith

  attempt_from-Ends-suc :
      (left n : ℕ) (s : S) (c : Result (Unit {0}) × S)
      → call_mcu n s ≡ c
      → Ends left (suc n) c.1 (attempt_from call_mcu left (suc n) c.1)
      → Ends (suc left) n s (attempt_from call_mcu (suc left) n s)
  attempt_from-Ends-suc left n s (ok u, t) h rest =
      let here : n + 0 ≡ n = omega arith in
      rw (attempt_from-ok left n s t h)
        (inl (0, s, omega arith, no_attempt, rw here h, rw here refl))
  attempt_from-Ends-suc left n s (err e, t) h rest =
      let here : n + 0 ≡ n = omega arith in
      elim (Bool-cases (is_timeout e)) [
        | inl late ↦
            rw (attempt_from-timeout left n s t e h late)
              (inr (inl (0, s, e, omega arith, no_attempt, rw here h, late, refl)))
        | inr plain ↦
            rw (attempt_from-refused left n s t e h plain)
              (Ends-later left n s t e _ _ h plain rest)
      ]

  attempt_from-Ends : (left n : ℕ) (s : S) → Ends left n s (attempt_from call_mcu left n s)
  unfolding attempt_from
  attempt_from-Ends zero n s = inr (inr (no_attempt, refl))
  attempt_from-Ends (suc left) n s =
      attempt_from-Ends-suc left n s (call_mcu n s) refl
        (attempt_from-Ends left (suc n) (call_mcu n s).1)

  -- `openGate` always ends, after `retry_count + 1` attempts at most, in one of three ways. Either
  -- attempt k answers and all before it were refused, and the metadata counts k retries; or
  -- attempt k times out and all before it were refused, and the timeout is thrown with no further
  -- attempt; or all `retry_count + 1` attempts are refused, and a bad gateway is thrown.
  pub open_gate-Ends :
      (retry_count : ℕ) (s : S) → Ends (suc retry_count) 0 s (open_gate call_mcu retry_count s)
  unfolding open_gate
  open_gate-Ends retry_count s = attempt_from-Ends (suc retry_count) 0 s
