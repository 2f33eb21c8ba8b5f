-- ===== src/Gate/Diagnostics.antt =====
-- The route of a device's diagnostics: `getDeviceDiagnostics` of
-- backend/src/gate/gate.controller.ts. What `Number` makes of a text is a parameter: `none` for
-- what is no number.
use parking_gate_remote.Common.{
  ℕ, String, ℤ, pos, negsuc, Option, none, some, List, ◌==◌, truthy, text_or, if◌then◌else◌, drop,
}
use parking_gate_remote.Common.Pages.{limited}
use parking_gate_remote.Common.Json.{is_zero}
use parking_gate_remote.Mongo.{Mongo}
use parking_gate_remote.Gate.Messages.{DeviceDiagnosticLog}
use parking_gate_remote.Gate.Pages.{clamped}

-- `Number(s) || n`
abbrev number_or : Option ℤ → ℤ → ℤ
number_or none n = n
number_or (some z) n = if is_zero z then n else z

-- `Math.max(z, 0)`
abbrev at_least_zero : ℤ → ℕ
at_least_zero (pos n) = n
at_least_zero (negsuc n) = 0

module _ (mongo : Mongo) (number : String → Option ℤ) where
  abbrev pub limit_of : Option String → ℕ
  limit_of limit =
      if truthy limit then clamped (number_or (number (text_or limit "")) (pos 50)) else 50

  abbrev pub skip_of : Option String → ℕ
  skip_of skip =
      if truthy skip then at_least_zero (number_or (number (text_or skip "")) (pos 0)) else 0

  pub get_device_diagnostics :
      String → Option String → Option String → List DeviceDiagnosticLog → List DeviceDiagnosticLog
  get_device_diagnostics device_id limit skip ls = limited (limit_of limit) (
      drop (skip_of skip) (
        mongo.find_sorted DeviceDiagnosticLog (λ l. l.device_id == device_id) (λ l. l.received_at)
          ls))
