-- ===== src/Web/Admin/Address.antt =====
-- What the admin's page keeps in its address: the filters of the users and of the log, the effects
-- that write them to the address and read them back, and the requests that load the lists, of
-- frontend/src/app/admin/AdminPageContent.tsx. A number that is NaN is `none`.
pub mod Values
pub mod Reading
pub mod RoundTrip
pub mod Log
mod Tests
use parking_gate_remote.Common.{
  ℕ, zero, suc, ◌+◌, ◌-◌, String, ℤ, pos, negsuc, Bool, true, false, not, Option, none, some, List,
  [], ◌∷◌, ◌++◌, ◌==◌, ◌&&◌, ◌||◌, if◌then◌else◌, eqb, text_or,
}
use parking_gate_remote.Common.Assoc.{lookup, delete, string_eq}
use parking_gate_remote.Users.Schema.{pending, approved, rejected, archived}
use parking_gate_remote.Admin.Listing.{
  StatusFilter, only, all_statuses, SortField, name, apartment_number, created_at, approval_date,
  SortOrder, asc, desc,
}
use parking_gate_remote.Gate.Log.{OpenedBy, user, admin_backdoor}
use parking_gate_remote.Web.Numerals.{number_text, parse_int}
use Prim.Native.String
pub use Values.{
  number_or_nan, parsed_or, number_param, synced_number, status_value, status_param, field_text,
  field_param, order_text, order_param,
}

pub data Tab : Type 0 where
  users logs devices terminal : Tab

abbrev ends_with : String → String → Bool
ends_with suffix Prim.Native.String.[] = suffix == ""
ends_with suffix (Prim.Native.String.◌∷◌ c s) =
    suffix == Prim.Native.String.◌∷◌ c s || ends_with suffix s

-- `getTabFromPath`
unfoldable pub tab_of_path : String → Tab → Tab
tab_of_path pathname default_tab =
    if ends_with "/users" pathname
    then users
    else if ends_with "/logs" pathname
    then logs
    else if ends_with "/devices" pathname
    then devices
    else if ends_with "/terminal" pathname
    then terminal
    else default_tab

abbrev pub is_users : Tab → Bool
is_users users = true
is_users _ = false

abbrev pub is_logs : Tab → Bool
is_logs logs = true
is_logs _ = false

-- The parameters of an address, in order.
abbrev pub Params : Type 0
Params = List (String × String)

-- `URLSearchParams.set`: the first value is replaced and any others are removed.
unfoldable pub set_param : String → String → Params → Params
set_param k v [] = (k, v) ∷ []
set_param k v ((j, w) ∷ ps) = if j == k then (k, v) ∷ delete k ps else (j, w) ∷ set_param k v ps

-- `updateURLParams`; a value that is `null` is `none`.
abbrev pub update_url_params : List (String × Option String) → Params → Params
update_url_params [] ps = ps
update_url_params ((k, v) ∷ us) ps =
    update_url_params us (if text_or v "" == "" then delete k ps else set_param k (text_or v "") ps)

-- What the page keeps of the users' tab.
pub record UsersView : Type 0 where
  pub status : StatusFilter
  pub search : String
  pub debounced : String
  pub page : Option ℤ
  pub limit : Option ℤ
  pub sort_field : SortField
  pub sort_order : SortOrder

-- the states as they are first made from the address
unfoldable pub users_of_url : Params → UsersView
users_of_url ps = record {
  status = status_param (lookup "status" ps);
  search = text_or (lookup "q" ps) "";
  debounced = text_or (lookup "q" ps) "";
  page = number_param 1 (lookup "page" ps);
  limit = number_param 20 (lookup "limit" ps);
  sort_field = field_param (lookup "sortField" ps);
  sort_order = order_param (lookup "sortOrder" ps);
}

-- the states as they are read from the address when the tab changes
unfoldable pub sync_users : Params → UsersView → UsersView
sync_users ps v =
    let q = text_or (lookup "q" ps) "" in
    record {
      status = status_param (lookup "status" ps);
      search = q;
      debounced = if q == v.search then v.debounced else q;
      page = synced_number 1 (lookup "page" ps);
      limit = synced_number 20 (lookup "limit" ps);
      sort_field = field_param (lookup "sortField" ps);
      sort_order = order_param (lookup "sortOrder" ps);
    }

-- `value || null`
abbrev pub or_null : String → Option String
or_null t = if t == "" then none else some t

-- An effect is skipped while the page is being mounted and on another tab.
abbrev pub on_tab : Bool → Bool → List (String × Option String) → Params → Params
on_tab initial here us ps = if initial || not here then ps else update_url_params us ps

module _ (initial : Bool) (tab : Tab) (v : UsersView) where
  unfoldable pub users_page_effect : Params → Params
  users_page_effect = on_tab initial (is_users tab) (("page", some (number_or_nan v.page)) ∷ [])

  unfoldable pub users_limit_effect : Params → Params
  users_limit_effect = on_tab initial (is_users tab) (("limit", some (number_or_nan v.limit)) ∷ [])

  unfoldable pub users_status_effect : Params → Params
  users_status_effect =
      on_tab initial (is_users tab) (("status", some (status_value v.status)) ∷ [])

  unfoldable pub users_sort_effect : Params → Params
  users_sort_effect = on_tab initial (is_users tab) (
      ("sortField", some (field_text v.sort_field))
      ∷ ("sortOrder", some (order_text v.sort_order))
      ∷ [])

  -- the timer of the search: what it makes of the states, and of the address
  abbrev pub users_search_timer : UsersView
  users_search_timer = record v { debounced = v.search }

  unfoldable pub users_search_effect : Params → Params
  users_search_effect =
      on_tab initial (is_users tab) (("q", or_null v.search) ∷ ("page", some "1") ∷ [])

-- The handlers of the tab.
abbrev pub toggled : SortOrder → SortOrder
toggled asc = desc
toggled desc = asc

abbrev pub same_field : SortField → SortField → Bool
same_field name name = true
same_field apartment_number apartment_number = true
same_field created_at created_at = true
same_field approval_date approval_date = true
same_field _ _ = false

abbrev pub first_order : SortField → SortOrder
first_order created_at = desc
first_order _ = asc

-- `handleSort`
unfoldable pub handle_sort : SortField → UsersView → UsersView
handle_sort f v =
    if same_field v.sort_field f
    then record v { sort_order = toggled v.sort_order; page = some (pos 1) }
    else record v { sort_field = f; sort_order = first_order f; page = some (pos 1) }

abbrev pub choose_status : StatusFilter → UsersView → UsersView
choose_status s v = record v { status = s; page = some (pos 1) }

abbrev pub choose_limit : Option ℤ → UsersView → UsersView
choose_limit n v = record v { limit = n; page = some (pos 1) }

abbrev pub type_search : String → UsersView → UsersView
type_search t v = record v { search = t }

-- the parameters of the request of `loadUsers`
unfoldable pub users_request : UsersView → Params
users_request v =
    (("status", status_value v.status)
      ∷ ("page", number_or_nan v.page)
      ∷ ("limit", number_or_nan v.limit)
      ∷ ("sortField", field_text v.sort_field)
      ∷ ("sortOrder", order_text v.sort_order)
      ∷ [])
    ++ (if v.debounced == "" then [] else ("q", v.debounced) ∷ [])
