-- ===== src/Web/Admin/Address/Log.antt =====
-- What the admin's page keeps of the log in its address
-- (frontend/src/app/admin/AdminPageContent.tsx).
use parking_gate_remote.Common.{
  String, ℤ, pos, Bool, Option, none, some, [], ◌∷◌, ◌++◌, ◌==◌, if◌then◌else◌, text_or,
}
use parking_gate_remote.Common.Assoc.{lookup, string_eq}
use parking_gate_remote.Gate.Log.{OpenedBy, user, admin_backdoor}
use parking_gate_remote.Web.Admin.Address.{
  Params, Tab, is_logs, number_or_nan, number_param, synced_number, or_null, on_tab,
}

-- `opened_by` is `none` for "all".
pub record LogsView : Type 0 where
  pub email : String
  pub debounced : String
  pub opened_by : Option OpenedBy
  pub page : Option ℤ
  pub limit : Option ℤ

abbrev pub opened_by_param : Option String → Option OpenedBy
opened_by_param none = none
opened_by_param (some t) =
    if t == "user" then some user else if t == "admin-backdoor" then some admin_backdoor else none

abbrev pub opened_by_text : Option OpenedBy → Option String
opened_by_text none = none
opened_by_text (some user) = some "user"
opened_by_text (some admin_backdoor) = some "admin-backdoor"

-- the states as they are first made from the address
unfoldable pub logs_of_url : Params → LogsView
logs_of_url ps = record {
  email = text_or (lookup "email" ps) "";
  debounced = text_or (lookup "email" ps) "";
  opened_by = opened_by_param (lookup "openedBy" ps);
  page = number_param 1 (lookup "page" ps);
  limit = number_param 50 (lookup "limit" ps);
}

-- the states as they are read from the address when the tab changes
unfoldable pub sync_logs : Params → LogsView → LogsView
sync_logs ps v =
    let email = text_or (lookup "email" ps) "" in
    record {
      email = email;
      debounced = if email == v.email then v.debounced else email;
      opened_by = opened_by_param (lookup "openedBy" ps);
      page = synced_number 1 (lookup "page" ps);
      limit = synced_number 50 (lookup "limit" ps);
    }

module _ (initial : Bool) (tab : Tab) (v : LogsView) where
  unfoldable pub logs_page_effect : Params → Params
  logs_page_effect = on_tab initial (is_logs tab) (("page", some (number_or_nan v.page)) ∷ [])

  unfoldable pub logs_limit_effect : Params → Params
  logs_limit_effect = on_tab initial (is_logs tab) (("limit", some (number_or_nan v.limit)) ∷ [])

  unfoldable pub logs_opened_by_effect : Params → Params
  logs_opened_by_effect =
      on_tab initial (is_logs tab) (("openedBy", opened_by_text v.opened_by) ∷ [])

  unfoldable pub logs_search_effect : Params → Params
  logs_search_effect =
      on_tab initial (is_logs tab) (("email", or_null v.email) ∷ ("page", some "1") ∷ [])

abbrev pub choose_opener : Option OpenedBy → LogsView → LogsView
choose_opener o v = record v { opened_by = o; page = some (pos 1) }

abbrev pub choose_logs_limit : Option ℤ → LogsView → LogsView
choose_logs_limit n v = record v { limit = n; page = some (pos 1) }

-- the parameters of the request of `loadLogs`
unfoldable pub logs_request : LogsView → Params
logs_request v =
    (("page", number_or_nan v.page) ∷ ("limit", number_or_nan v.limit) ∷ [])
    ++ (if v.debounced == "" then [] else ("email", v.debounced) ∷ [])
    ++ opener_param (opened_by_text v.opened_by)
  where
    opener_param : Option String → Params
    opener_param none = []
    opener_param (some t) = ("openedBy", t) ∷ []
