-- ===== src/Gate/Pages.antt =====
-- Reading the log: `getLatest` and `getLogsPaginated` of backend/src/gate/gate.service.ts with
-- admin/dto/get-logs-query.dto.ts, and the `logs` route of gate/gate.controller.ts. Whether a text
-- meets a regular expression is MongoDB's to say, and `Number(text)` is JavaScript's: parameters.
-- The id of an entry is left out.
pub mod Cover
mod Tests
use parking_gate_remote.Common.{
  ℕ, zero, suc, ◌-◌, ◌*◌, String, ℤ, pos, negsuc, Bool, true, false, Option, none, some, List, [],
  ◌∷◌, map, ◌&&◌, truthy, text_or, if◌then◌else◌, length, select, take, drop, ltb,
}
use parking_gate_remote.Common.Pages.{limited, page_count}
use parking_gate_remote.Mongo.{Mongo}
use parking_gate_remote.Gate.Log.{OpenedBy, user, admin_backdoor, GateLog}

-- The query, with the defaults of `getLogsPaginated` filled in; `opened_by` is `none` for "all".
pub record LogsQuery : Type 0 where
  pub email : Option String
  pub opened_by : Option OpenedBy
  pub page : ℕ
  pub limit : ℕ

pub record LogItem : Type 0 where
  pub opened_by : OpenedBy
  pub email : Option String
  pub device_id : Option String
  pub ip : Option String
  pub user_agent : Option String
  pub created_at : ℕ

pub record LogsPage : Type 0 where
  pub items : List LogItem
  pub page : ℕ
  pub limit : ℕ
  pub total : ℕ
  pub total_pages : ℕ

abbrev pub log_item : GateLog → LogItem
log_item l = record {
  opened_by = l.opened_by;
  email = l.email;
  device_id = l.device_id;
  ip = l.ip;
  user_agent = l.user_agent;
  created_at = l.created_at;
}

abbrev same_opener : OpenedBy → OpenedBy → Bool
same_opener user user = true
same_opener admin_backdoor admin_backdoor = true
same_opener _ _ = false

abbrev opener_passes : Option OpenedBy → OpenedBy → Bool
opener_passes none b = true
opener_passes (some a) b = same_opener a b

abbrev regex_passes : (String → String → Bool) → String → Option String → Bool
regex_passes matches pattern none = false
regex_passes matches pattern (some s) = matches pattern s

-- the filter that is built
abbrev pub logs_filter : (String → String → Bool) → LogsQuery → GateLog → Bool
logs_filter matches q l =
    (if truthy q.email then regex_passes matches (text_or q.email "") l.email else true)
    && opener_passes q.opened_by l.opened_by

abbrev pub newest : GateLog → ℕ
newest l = l.created_at

-- `Math.min(Math.max(n, 1), 200)`
abbrev pub clamped : ℤ → ℕ
clamped (negsuc n) = 1
clamped (pos n) = if ltb n 1 then 1 else if ltb 200 n then 200 else n

-- what `Number` gives, if it is a whole number
abbrev pub safe_limit : Option ℤ → ℕ
safe_limit none = 50
safe_limit (some n) = clamped n

module _ (mongo : Mongo) where
  pub get_latest : ℕ → List GateLog → List GateLog
  get_latest limit logs = limited limit (mongo.find_sorted GateLog (λ l. true) newest logs)

  pub get_logs_paginated : (String → String → Bool) → LogsQuery → List GateLog → LogsPage
  get_logs_paginated matches q logs =
      let total = length (mongo.find GateLog (logs_filter matches q) logs) in
      record {
        items = map log_item (
            limited q.limit (
              drop ((q.page - 1) * q.limit)
                (mongo.find_sorted GateLog (logs_filter matches q) newest logs)));
        page = q.page;
        limit = q.limit;
        total = total;
        total_pages = page_count total q.limit;
      }

  -- the `logs` route: a limit that is missing or empty counts as 50
  pub logs_route : (String → Option ℤ) → Option String → List GateLog → List GateLog
  logs_route number limit logs =
      get_latest (if truthy limit then safe_limit (number (text_or limit "")) else 50) logs
