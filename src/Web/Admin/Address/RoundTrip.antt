-- ===== src/Web/Admin/Address/RoundTrip.antt =====
-- The states that are read from an address to which they were written
-- (frontend/src/app/admin/AdminPageContent.tsx).
use parking_gate_remote.Common.{
  String, ℤ, pos, ◌≡◌, refl, sym, ap, ◌∙◌, inl, inr, true, false, Option, some, [], ◌∷◌, ◌==◌,
  Bool-cases, eq_iff,
}
use parking_gate_remote.Common.Assoc.{delete, string_eq}
use parking_gate_remote.Admin.Listing.{SortOrder}
use parking_gate_remote.Web.Admin.Address.{
  Params, UsersView, users, or_null, set_param, update_url_params, number_or_nan, status_value,
  field_text, order_param, order_text, users_of_url, users_page_effect, users_limit_effect,
  users_status_effect, users_sort_effect, users_search_effect,
}
use parking_gate_remote.Web.Admin.Address.Reading.{
  is_held, page-set, status_param-status_value, update-set, field_param-field_text, field-set,
  field_text-full, held-full, search-set, order_text-full, order_param-order_text, first_page,
  update-two, search-cleared, status_value-full, order-set, limit-set, status-set,
  number_param-held,
}

abbrev with_page : Option ℤ → UsersView → UsersView
with_page n v = record v { page = n }

abbrev with_order : SortOrder → UsersView → UsersView
with_order o v = record v { sort_order = o }

abbrev with_search : String → UsersView → UsersView
with_search t v = record v { search = t; debounced = t }

module _ (v : UsersView) (ps : Params) where
  users_page_effect_lem :
      is_held v.page ≡ true
      → users_of_url (users_page_effect false users v ps)
        ≡ record (users_of_url ps) { page = v.page }
  unfolding users_page_effect
  users_page_effect_lem h =
      ap users_of_url (update-set ps "page" (number_or_nan v.page) (held-full v.page h))
      ∙ page-set ps (number_or_nan v.page)
      ∙ ap (λ n. record (users_of_url ps) { page = n }) (number_param-held 1 v.page h)

  users_limit_effect_lem :
      is_held v.limit ≡ true
      → users_of_url (users_limit_effect false users v ps)
        ≡ record (users_of_url ps) { limit = v.limit }
  unfolding users_limit_effect
  users_limit_effect_lem h =
      ap users_of_url (update-set ps "limit" (number_or_nan v.limit) (held-full v.limit h))
      ∙ limit-set ps (number_or_nan v.limit)
      ∙ ap (λ n. record (users_of_url ps) { limit = n }) (number_param-held 20 v.limit h)

  users_status_effect_lem :
      users_of_url (users_status_effect false users v ps)
      ≡ record (users_of_url ps) { status = v.status }
  unfolding users_status_effect
  users_status_effect_lem =
      ap users_of_url (update-set ps "status" (status_value v.status) (status_value-full v.status))
      ∙ status-set ps (status_value v.status)
      ∙ ap (λ t. record (users_of_url ps) { status = t }) (status_param-status_value v.status)

  users_sort_effect_lem :
      users_of_url (users_sort_effect false users v ps)
      ≡ record (users_of_url ps) { sort_field = v.sort_field; sort_order = v.sort_order }
  unfolding users_sort_effect
  users_sort_effect_lem =
      let f = field_text v.sort_field in
      let o = order_text v.sort_order in
      let qs = set_param "sortField" f ps in
      ap users_of_url (
        update-two ps "sortField" f "sortOrder" o (field_text-full v.sort_field)
        ∙ update-set qs "sortOrder" o (order_text-full v.sort_order))
      ∙ order-set qs o
      ∙ ap (with_order (order_param (some o))) (field-set ps f)
      ∙ ap (λ g. record (users_of_url ps) { sort_field = g; sort_order = order_param (some o) })
          (field_param-field_text v.sort_field)
      ∙ ap (λ r. record (users_of_url ps) { sort_field = v.sort_field; sort_order = r })
          (order_param-order_text v.sort_order)

  searched :
      (qs : Params)
      → users_of_url qs ≡ with_search v.search (users_of_url ps)
      → users_of_url (set_param "page" "1" qs)
        ≡ with_page (some (pos 1)) (with_search v.search (users_of_url ps))
  searched qs h =
      page-set qs "1"
      ∙ ap (λ n. with_page n (users_of_url qs)) first_page
      ∙ ap (with_page (some (pos 1))) h

  -- The update of the search comes first, and is a deletion if the search is empty.
  abbrev search_update : Params
  search_update = update_url_params (("q", or_null v.search) ∷ []) ps

  search_update-read : users_of_url search_update ≡ with_search v.search (users_of_url ps)
  search_update-read = elim (Bool-cases (v.search == "")) [
    | inl y ↦
        let deleted : search_update ≡ delete "q" ps = rw y refl in
        ap users_of_url deleted
        ∙ search-cleared ps
        ∙ ap (λ t. with_search t (users_of_url ps)) (sym ((eq_iff v.search "").0 y))
    | inr n ↦
        let kept : search_update ≡ set_param "q" v.search ps = rw (n, n, n) refl in
        ap users_of_url kept ∙ search-set ps v.search n
  ]

  users_search_effect_lem :
      users_of_url (users_search_effect false users v ps)
      ≡ with_page (some (pos 1)) (with_search v.search (users_of_url ps))
  unfolding users_search_effect
  users_search_effect_lem = searched search_update search_update-read

  -- What an effect of the users' tab writes to the address is read back from it, and nothing else
  -- that is read changes: the page and the limit, unless they are zero or no numbers, the status,
  -- the field and the order of the sort, and the search with the first page.
  pub users_effects-users_of_url :
      is_held v.page ≡ true
      → is_held v.limit ≡ true
      → (users_of_url (users_page_effect false users v ps)
          ≡ record (users_of_url ps) { page = v.page })
        × (users_of_url (users_limit_effect false users v ps)
            ≡ record (users_of_url ps) { limit = v.limit })
        × (users_of_url (users_status_effect false users v ps)
            ≡ record (users_of_url ps) { status = v.status })
        × (users_of_url (users_sort_effect false users v ps)
            ≡ record (users_of_url ps) { sort_field = v.sort_field; sort_order = v.sort_order })
        × (users_of_url (users_search_effect false users v ps) ≡ record (users_of_url ps) {
          search = v.search;
          debounced = v.search;
          page = some (pos 1);
        })
  users_effects-users_of_url h k = (
    users_page_effect_lem h,
    users_limit_effect_lem k,
    users_status_effect_lem,
    users_sort_effect_lem,
    users_search_effect_lem,
  )
