-- ===== src/Gate/Pages/Tests.antt =====
-- Pages of a log of three entries (backend/src/gate/gate.service.ts).
use parking_gate_remote.Common.{
  ℕ, String, pos, ◌≡◌, ◌≤◌, refl, Bool, none, some, List, [], ◌∷◌, ◌==◌, map, select, length, arith,
}
use parking_gate_remote.Mongo.{Falling}
use parking_gate_remote.Mongo.Lists.{lists}
use parking_gate_remote.Gate.{untried}
use parking_gate_remote.Gate.Log.{GateLog, user, success}
use parking_gate_remote.Gate.Pages.{LogsQuery, log_item, logs_filter, newest, get_logs_paginated}
use parking_gate_remote.Gate.Pages.Cover.{matching, all_items, get_logs_paginated_cover}
use mathlib.Core.List.{Perm}

abbrev entry : String → ℕ → GateLog
entry id t = record {
  request_id = id;
  user_id = some "u1";
  email = some "dana@x.org";
  device_id = some "phone";
  session_id = none;
  ip = none;
  user_agent = none;
  opened_by = user;
  status = success;
  failure_reason = none;
  duration_ms = pos 5;
  mcu = untried;
  created_at = t;
}

abbrev log : List GateLog
log = entry "a" 1 ∷ entry "b" 3 ∷ entry "c" 2 ∷ []

abbrev two_each : LogsQuery
two_each = record { email = some "dana@x.org"; opened_by = none; page = 1; limit = 2 }

abbrev equal : String → String → Bool
equal pattern s = pattern == s

first_page :
    (get_logs_paginated lists equal two_each log).items
    ≡ log_item (entry "b" 3) ∷ log_item (entry "c" 2) ∷ []
unfolding get_logs_paginated
first_page = refl

get_logs_paginated_cover_example :
    (all_items lists equal two_each log (get_logs_paginated lists equal two_each log).total_pages 1
      ≡ map log_item (matching lists equal two_each log))
    × Perm (matching lists equal two_each log) (select (logs_filter equal two_each) log)
    × Falling newest (matching lists equal two_each log)
    × (length (get_logs_paginated lists equal two_each log).items ≤ 2)
get_logs_paginated_cover_example = get_logs_paginated_cover lists equal two_each log (omega arith)
