-- ===== src/Web/Admin/Address/Tests.antt =====
-- Addresses of the users' tab (frontend/src/app/admin/AdminPageContent.tsx).
use parking_gate_remote.Common.{pos, ◌≡◌, refl, false, none, some, [], ◌∷◌}
use parking_gate_remote.Common.Assoc.{lookup, delete, string_eq}
use parking_gate_remote.Users.Schema.{approved}
use parking_gate_remote.Admin.Listing.{only, name, asc}
use parking_gate_remote.Web.Numerals.{parse_int, scan, decimal}
use parking_gate_remote.Web.Admin.Address.{
  Params, UsersView, users, logs, tab_of_path, set_param, users_of_url, sync_users,
  users_page_effect, users_limit_effect, users_status_effect, users_sort_effect,
  users_search_effect, users_search_timer, type_search, users_request,
}
use parking_gate_remote.Web.Admin.Address.RoundTrip.{users_effects-users_of_url}

abbrev address : Params
address = ("page", "3") ∷ ("status", "approved") ∷ ("limit", "x") ∷ []

abbrev third_page : UsersView
third_page = record {
  status = only approved;
  search = "";
  debounced = "";
  page = some (pos 3);
  limit = some (pos 20);
  sort_field = name;
  sort_order = asc;
}

paths : (tab_of_path "/admin/logs" users ≡ logs) × (tab_of_path "/admin" users ≡ users)
unfolding tab_of_path
paths = (refl, refl)

-- A limit that is no number counts as 20 at first, and is NaN when it is read again.
limits :
    ((users_of_url address).limit ≡ some (pos 20)) × ((sync_users address third_page).limit ≡ none)
unfolding users_of_url sync_users lookup parse_int scan
limits = (refl, refl)

-- A search from the third page: the address says the first page, the request asks for the third.
abbrev searched : UsersView
searched = users_search_timer false users (type_search "dana" third_page)

page_in_address :
    (users_of_url (users_search_effect false users searched address)).page ≡ some (pos 1)
unfolding users_of_url users_search_effect lookup set_param parse_int scan
page_in_address = refl

page_asked_for : lookup "page" (users_request searched) ≡ some "3"
unfolding users_request lookup decimal
page_asked_for = refl

-- So does a page that is just loaded, since the timer runs after it has been mounted.
page_loaded :
    (users_of_url (users_search_effect false users (users_of_url address) address)).page
    ≡ some (pos 1)
unfolding users_of_url users_search_effect lookup set_param parse_int scan delete
page_loaded = refl

users_effects-users_of_url_example :
    (users_of_url (users_page_effect false users third_page address)
      ≡ record (users_of_url address) { page = some (pos 3) })
    × (users_of_url (users_limit_effect false users third_page address)
        ≡ record (users_of_url address) { limit = some (pos 20) })
    × (users_of_url (users_status_effect false users third_page address)
        ≡ record (users_of_url address) { status = only approved })
    × (users_of_url (users_sort_effect false users third_page address)
        ≡ record (users_of_url address) { sort_field = name; sort_order = asc })
    × (users_of_url (users_search_effect false users third_page address)
        ≡ record (users_of_url address) { search = ""; debounced = ""; page = some (pos 1) })
users_effects-users_of_url_example = users_effects-users_of_url third_page address refl refl
