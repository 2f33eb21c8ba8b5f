-- ===== src/Web/Admin/Address/Values.antt =====
-- The values that the admin's page keeps in its address, as texts and back
-- (frontend/src/app/admin/AdminPageContent.tsx).
use parking_gate_remote.Common.{
  ℕ, zero, suc, String, ℤ, pos, negsuc, Option, none, some, ◌==◌, if◌then◌else◌,
}
use parking_gate_remote.Users.Schema.{pending, approved, rejected, archived}
use parking_gate_remote.Admin.Listing.{
  StatusFilter, only, all_statuses, SortField, name, apartment_number, created_at, approval_date,
  SortOrder, asc, desc,
}
use parking_gate_remote.Web.Numerals.{number_text, parse_int}

abbrev pub number_or_nan : Option ℤ → String
number_or_nan none = "NaN"
number_or_nan (some z) = number_text z

-- `parseInt(text, 10) || n`
abbrev pub parsed_or : ℕ → Option ℤ → Option ℤ
parsed_or n none = some (pos n)
parsed_or n (some (pos zero)) = some (pos n)
parsed_or n (some (pos (suc m))) = some (pos (suc m))
parsed_or n (some (negsuc m)) = some (negsuc m)

-- `text ? parseInt(text, 10) || n : n`
abbrev pub number_param : ℕ → Option String → Option ℤ
number_param n none = some (pos n)
number_param n (some t) = if t == "" then some (pos n) else parsed_or n (parse_int t)

-- `text ? parseInt(text, 10) : n`
abbrev pub synced_number : ℕ → Option String → Option ℤ
synced_number n none = some (pos n)
synced_number n (some t) = if t == "" then some (pos n) else parse_int t

abbrev pub status_value : StatusFilter → String
status_value (only pending) = "pending"
status_value (only approved) = "approved"
status_value (only rejected) = "rejected"
status_value (only archived) = "archived"
status_value all_statuses = "all"

abbrev pub status_param : Option String → StatusFilter
status_param none = only pending
status_param (some t) =
    if t == "approved"
    then only approved
    else if t == "rejected"
    then only rejected
    else if t == "archived"
    then only archived
    else if t == "all"
    then all_statuses
    else only pending

abbrev pub field_text : SortField → String
field_text name = "name"
field_text apartment_number = "apartmentNumber"
field_text created_at = "createdAt"
field_text approval_date = "approvalDate"

abbrev pub field_param : Option String → SortField
field_param none = created_at
field_param (some t) =
    if t == "name"
    then name
    else if t == "apartmentNumber"
    then apartment_number
    else if t == "approvalDate"
    then approval_date
    else created_at

abbrev pub order_text : SortOrder → String
order_text asc = "asc"
order_text desc = "desc"

abbrev pub order_param : Option String → SortOrder
order_param none = desc
order_param (some t) = if t == "asc" then asc else desc
