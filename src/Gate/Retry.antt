-- ===== src/Gate/Retry.antt =====
-- The loop over attempts of `openGate`, which backend/src/gate/gate-device.service.ts and
-- backend/src/gate/mqtt-gate-device.service.ts share. One attempt is a parameter: it takes its
-- number and the state that the attempts share, and an exception is a result.
pub mod Attempts
mod Tests
use parking_gate_remote.Common.{ℕ, zero, suc, ◌+◌, String, true, false, if◌then◌else◌}
use parking_gate_remote.Common.Http.{http, bad_gateway, Result, ok, err, is_timeout}
use parking_gate_remote.Gate.Log.{McuMetadata}

abbrev pub device_message : String
device_message =
    "\u{5e9}\u{5d2}\u{5d9}\u{5d0}\u{5d4} \u{5d1}\u{5ea}\u{5e7}\u{5e9}\u{5d5}\u{5e8}\u{5ea} \u{5e2}\u{5dd} \u{5d4}\u{5e9}\u{5e2}\u{5e8}"

module _ {S : Type 0} (call_mcu : ℕ → S → Result (Unit {0}) × S) where
  -- The rounds of the `for` loop that are left (`retryCount + 1 - attempt` of them), the number
  -- of the next attempt, and the state. A timeout is thrown at once; after the last round the
  -- last error cannot be a timeout.
  pub attempt_from : ℕ → ℕ → S → Result McuMetadata × S
  attempt_from zero attempt s = (err (http bad_gateway device_message), s)
  attempt_from (suc left) attempt s =
      let (r, s') = call_mcu attempt s in
      let rest = attempt_from left (suc attempt) s' in
      elim r [
        | ok u ↦ (ok (record { attempted = true; timeout = false; retries = attempt }), s')
        | err e ↦ if is_timeout e then (err e, s') else rest
      ]

  pub open_gate : ℕ → S → Result McuMetadata × S
  open_gate retry_count s = attempt_from (suc retry_count) 0 s
