-- ===== src/Gate/Pages/Cover.antt =====
-- The pages of the log taken together, and the bound of the `logs` route
-- (backend/src/gate/gate.service.ts).
use parking_gate_remote.Common.{
  ℕ, zero, suc, ◌+◌, ◌*◌, ◌≤◌, ◌≡◌, refl, sym, ap, subst, ◌∙◌, String, ℤ, pos, negsuc, Bool, true,
  Option, none, some, List, [], ◌∷◌, ◌++◌, map, arith, truthy, text_or, if◌then◌else◌, length,
  select, take, length-take-le, length-Perm,
}
use parking_gate_remote.Common.Pages.{
  page_of, map_pages, map_pages_cover, length-page_of, limited-take, page_count, page_count_enough,
}
use parking_gate_remote.Mongo.{Mongo, Falling}
use parking_gate_remote.Gate.Log.{GateLog}
use parking_gate_remote.Gate.Pages.{
  LogsQuery, LogItem, log_item, logs_filter, newest, safe_limit, get_latest, get_logs_paginated,
  logs_route,
}
use mathlib.Core.List.{Perm}

length-map : (ls : List GateLog) → length (map log_item ls) ≡ length ls
length-map [] = refl
length-map (l ∷ ls) = ground (arith, length-map ls)

safe_limit_bounds : (z : Option ℤ) → (1 ≤ safe_limit z) × (safe_limit z ≤ 200)
safe_limit_bounds none = omega arith
safe_limit_bounds (some (pos n)) = ground arith
safe_limit_bounds (some (negsuc n)) = omega arith

route_limit_bounds :
    (number : String → Option ℤ) (limit : Option String)
    → (1 ≤ (if truthy limit then safe_limit (number (text_or limit "")) else 50))
      × ((if truthy limit then safe_limit (number (text_or limit "")) else 50) ≤ 200)
route_limit_bounds number limit = ground (arith, safe_limit_bounds (number (text_or limit "")))

module _ (mongo : Mongo) (matches : String → String → Bool) (q : LogsQuery)
    (logs : List GateLog) where
  abbrev pub matching : List GateLog
  matching = mongo.find_sorted GateLog (logs_filter matches q) newest logs

  -- The items of the pages with the numbers from one on, as many as the answer says there are.
  abbrev pub all_items : ℕ → ℕ → List LogItem
  all_items zero page = []
  all_items (suc n) page =
      (get_logs_paginated mongo matches (record q { page = page }) logs).items
      ++ all_items n (page + 1)

  all_items-pages : (n page : ℕ) → all_items n page ≡ map_pages log_item q.limit n page matching
  unfolding get_logs_paginated
  all_items-pages zero page = refl
  all_items-pages (suc n) page =
      ap (λ is. map log_item (page_of q.limit page matching) ++ is) (all_items-pages n (page + 1))

  -- The pages that an answer counts, one after the other, are all entries that meet the filter,
  -- each as often as it is in the log, and the newest first; no page is longer than the limit.
  pub get_logs_paginated_cover :
      1 ≤ q.limit
      → (all_items (get_logs_paginated mongo matches q logs).total_pages 1 ≡ map log_item matching)
        × Perm matching (select (logs_filter matches q) logs)
        × Falling newest matching
        × (length (get_logs_paginated mongo matches q logs).items ≤ q.limit)
  unfolding get_logs_paginated
  get_logs_paginated_cover h = (
    all_items-pages (page_count total q.limit) 1
        ∙ map_pages_cover log_item q.limit (page_count total q.limit) matching h enough,
    mongo.find_sorted-perm GateLog (logs_filter matches q) newest logs,
    mongo.find_sorted-Falling GateLog (logs_filter matches q) newest logs,
    omega (
      arith,
      length-map (page_of q.limit q.page matching),
      length-page_of q.limit q.page matching h,
    ),
  )
    where
      total : ℕ
      total = length (mongo.find GateLog (logs_filter matches q) logs)

      same : length matching ≡ total
      same =
          length-Perm matching (select (logs_filter matches q) logs)
            (mongo.find_sorted-perm GateLog (logs_filter matches q) newest logs)
          ∙ sym (ap length (mongo.find_lem GateLog (logs_filter matches q) logs))

      enough : length matching ≤ page_count total q.limit * q.limit
      enough =
          subst (λ n. n ≤ page_count total q.limit * q.limit) (sym same)
            (page_count_enough total q.limit h)

module _ (mongo : Mongo) where
  -- The `logs` route answers with at most 200 entries, and with at least one if there is any; they
  -- are the newest of the log.
  pub logs_route_bounds :
      (number : String → Option ℤ) (limit : Option String) (logs : List GateLog)
      → (n : ℕ) × (1 ≤ n)
        × (n ≤ 200)
        × (logs_route mongo number limit logs
            ≡ take n (mongo.find_sorted GateLog (λ l. true) newest logs))
        × (length (logs_route mongo number limit logs) ≤ n)
  unfolding logs_route get_latest
  logs_route_bounds number limit logs =
      let n : ℕ = if truthy limit then safe_limit (number (text_or limit "")) else 50 in
      let ls = mongo.find_sorted GateLog (λ l. true) newest logs in
      let (low, high) = route_limit_bounds number limit in
      (
        n,
        low,
        high,
        limited-take n ls low,
        subst (λ ms. length ms ≤ n) (sym (limited-take n ls low)) (length-take-le n ls),
      )
