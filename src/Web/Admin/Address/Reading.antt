-- ===== src/Web/Admin/Address/Reading.antt =====
-- What is read from an address after one of its values is set
-- (frontend/src/app/admin/AdminPageContent.tsx).
use parking_gate_remote.Common.{
  ℕ, zero, suc, String, ℤ, pos, negsuc, ◌≡◌, refl, sym, ap, ◌∙◌, inl, inr, Bool, true, false,
  Option, none, some, [], ◌∷◌, ◌==◌, if◌then◌else◌, Bool-cases, arith, eq_iff,
}
use parking_gate_remote.Common.Assoc.{lookup, delete, string_eq, lookup-delete}
use parking_gate_remote.Users.Schema.{pending, approved, rejected, archived}
use parking_gate_remote.Admin.Listing.{
  StatusFilter, only, all_statuses, SortField, name, apartment_number, created_at, approval_date,
  SortOrder, asc, desc,
}
use parking_gate_remote.Web.Numerals.{number_text, scan, parse_int, parse_int-number_text}
use parking_gate_remote.Web.Admin.Address.{
  Params, set_param, update_url_params, number_or_nan, number_param, parsed_or, status_param,
  status_value, field_param, field_text, order_param, order_text, users_of_url,
}

lookup-set_param :
    (k j v : String) (ps : Params)
    → lookup j (set_param k v ps) ≡ (if k == j then some v else lookup j ps)
unfolding lookup set_param
lookup-set_param k j v [] = refl
lookup-set_param k j v ((i, w) ∷ ps) =
    ground
      (arith, eq_iff k j, eq_iff i k, eq_iff i j, lookup-set_param k j v ps, lookup-delete k j ps)

pub status_param-status_value : (s : StatusFilter) → status_param (some (status_value s)) ≡ s
status_param-status_value (only pending) = refl
status_param-status_value (only approved) = refl
status_param-status_value (only rejected) = refl
status_param-status_value (only archived) = refl
status_param-status_value all_statuses = refl

pub field_param-field_text : (f : SortField) → field_param (some (field_text f)) ≡ f
field_param-field_text name = refl
field_param-field_text apartment_number = refl
field_param-field_text created_at = refl
field_param-field_text approval_date = refl

pub order_param-order_text : (o : SortOrder) → order_param (some (order_text o)) ≡ o
order_param-order_text asc = refl
order_param-order_text desc = refl

parse_int-empty : parse_int "" ≡ none
unfolding parse_int
parse_int-empty = refl

number_text-full : (z : ℤ) → number_text z == "" ≡ false
number_text-full z = elim (Bool-cases (number_text z == "")) [
  | inl y ↦ absurd (
      ground (
        arith,
        sym (parse_int-number_text z)
            ∙ ap parse_int ((eq_iff (number_text z) "").0 y)
            ∙ parse_int-empty,
      ))
  | inr n ↦ n
]

-- A number that the address can hold: not NaN and not zero, which count as the default.
abbrev pub is_held : Option ℤ → Bool
is_held none = false
is_held (some (pos zero)) = false
is_held (some (pos (suc n))) = true
is_held (some (negsuc n)) = true

parsed_or-held : (d : ℕ) (n : Option ℤ) → is_held n ≡ true → parsed_or d n ≡ n
parsed_or-held d none h = ground arith
parsed_or-held d (some (pos zero)) h = ground arith
parsed_or-held d (some (pos (suc n))) h = refl
parsed_or-held d (some (negsuc n)) h = refl

pub number_param-held :
    (d : ℕ) (n : Option ℤ) → is_held n ≡ true → number_param d (some (number_or_nan n)) ≡ n
number_param-held d none h = ground arith
number_param-held d (some z) h =
    rw (number_text-full z)
      (ap (parsed_or d) (parse_int-number_text z) ∙ parsed_or-held d (some z) h)

pub held-full : (n : Option ℤ) → is_held n ≡ true → number_or_nan n == "" ≡ false
held-full none h = ground arith
held-full (some z) h = number_text-full z

pub status_value-full : (s : StatusFilter) → status_value s == "" ≡ false
status_value-full (only pending) = refl
status_value-full (only approved) = refl
status_value-full (only rejected) = refl
status_value-full (only archived) = refl
status_value-full all_statuses = refl

pub field_text-full : (f : SortField) → field_text f == "" ≡ false
field_text-full name = refl
field_text-full apartment_number = refl
field_text-full created_at = refl
field_text-full approval_date = refl

pub order_text-full : (o : SortOrder) → order_text o == "" ≡ false
order_text-full asc = refl
order_text-full desc = refl

pub first_page : number_param 1 (some "1") ≡ some (pos 1)
unfolding parse_int scan
first_page = refl

module _ (ps : Params) where
  -- An update by a text that is not empty.
  pub update-set :
      (k t : String) → t == "" ≡ false → update_url_params ((k, some t) ∷ []) ps ≡ set_param k t ps
  update-set k t h = rw (h, h) refl

  -- Two updates are made one after the other.
  pub update-two :
      (k t j u : String)
      → t == "" ≡ false
      → update_url_params ((k, some t) ∷ (j, some u) ∷ []) ps
        ≡ update_url_params ((j, some u) ∷ []) (set_param k t ps)
  update-two k t j u h = rw (h, h) refl

  pub page-set :
      (t : String)
      → users_of_url (set_param "page" t ps)
        ≡ record (users_of_url ps) { page = number_param 1 (some t) }
  unfolding users_of_url
  page-set t = simp lookup-set_param

  pub limit-set :
      (t : String)
      → users_of_url (set_param "limit" t ps)
        ≡ record (users_of_url ps) { limit = number_param 20 (some t) }
  unfolding users_of_url
  limit-set t = simp lookup-set_param

  pub status-set :
      (t : String)
      → users_of_url (set_param "status" t ps)
        ≡ record (users_of_url ps) { status = status_param (some t) }
  unfolding users_of_url
  status-set t = simp lookup-set_param

  pub field-set :
      (t : String)
      → users_of_url (set_param "sortField" t ps)
        ≡ record (users_of_url ps) { sort_field = field_param (some t) }
  unfolding users_of_url
  field-set t = simp lookup-set_param

  pub order-set :
      (t : String)
      → users_of_url (set_param "sortOrder" t ps)
        ≡ record (users_of_url ps) { sort_order = order_param (some t) }
  unfolding users_of_url
  order-set t = simp lookup-set_param

  pub search-set :
      (t : String)
      → t == "" ≡ false
      → users_of_url (set_param "q" t ps) ≡ record (users_of_url ps) { search = t; debounced = t }
  unfolding users_of_url
  search-set t h = simp (lookup-set_param, h)

  pub search-cleared :
      users_of_url (delete "q" ps) ≡ record (users_of_url ps) { search = ""; debounced = "" }
  unfolding users_of_url
  search-cleared = simp lookup-delete
