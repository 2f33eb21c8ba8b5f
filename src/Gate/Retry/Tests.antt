-- ===== src/Gate/Retry/Tests.antt =====
-- Runs of the loop over attempts (backend/src/gate/gate-device.service.ts).
use parking_gate_remote.Common.{ℕ, suc, ◌≡◌, refl, true, false, eqb}
use parking_gate_remote.Common.Http.{http, bad_gateway, Result, ok, err}
use parking_gate_remote.Gate.Retry.{attempt_from, open_gate}
use parking_gate_remote.Gate.Retry.Attempts.{Ends, open_gate-Ends}

-- An MCU that fails once and then answers; its state counts the attempts.
abbrev flaky : ℕ → ℕ → Result (Unit {0}) × ℕ
flaky attempt tried =
    (elim (eqb attempt 0) [ true ↦ err (http bad_gateway "busy") | false ↦ ok tt ], suc tried)

retries_once :
    open_gate flaky 1 0 ≡ (ok (record { attempted = true; timeout = false; retries = 1 }), 2)
unfolding open_gate attempt_from
retries_once = refl

open_gate-Ends_example : Ends flaky 2 0 0 (open_gate flaky 1 0)
open_gate-Ends_example = open_gate-Ends flaky 1 0
