-- ===== src/Admin/Listing/Cover.antt =====
-- The pages of users taken together (getUsers of backend/src/admin/admin.service.ts).
use parking_gate_remote.Common.{
  ℕ, zero, suc, ◌+◌, ◌*◌, ◌≤◌, ◌≡◌, refl, sym, ap, subst, ◌∙◌, String, Bool, false, List, [], ◌∷◌,
  ◌++◌, map, arith, length, select, length-Perm,
}
use parking_gate_remote.Common.Sorted.{InOrder, Untied, InOrder-unique}
use parking_gate_remote.Common.Pages.{
  page_of, map_pages, map_pages_cover, length-page_of, page_count, page_count_enough,
}
use parking_gate_remote.Mongo.{Mongo}
use parking_gate_remote.Users.{Db}
use parking_gate_remote.Users.Schema.{User}
use parking_gate_remote.Admin.Listing.{
  UsersQuery, UserItem, Sorted, SortKey, SortOrder, users_filter, sort_keys, listed, get_users,
}
use mathlib.Core.List.{Perm}
use mathlib.Core.List.Perm

-- Whether by the keys and the direction the first user comes before the second.
abbrev pub Before : Type 0
Before = List SortKey → SortOrder → User → User → Bool

-- What MongoDB documents of a sort: each read gives the documents that pass, in the order of their
-- keys, and no document comes before itself. Of documents with the same keys it promises nothing.
pub record SortsBy (before : Before) (sorted : Sorted) : Type 0 where
  pub sorted-Perm :
      (read : ℕ) (keys : List SortKey) (order : SortOrder) (p : User → Bool) (us : List User)
      → Perm (sorted read keys order p us) (select p us)
  pub sorted-InOrder :
      (read : ℕ) (keys : List SortKey) (order : SortOrder) (p : User → Bool) (us : List User)
      → InOrder (before keys order) (sorted read keys order p us)
  pub irreflexive :
      (keys : List SortKey) (order : SortOrder) (u : User) → before keys order u u ≡ false

module _ (mongo : Mongo) (sorted : Sorted) (matches : String → String → Bool)
    (updated_at : User → ℕ) (query : UsersQuery) (db : Db) where
  abbrev pub passing : List User
  passing = select (users_filter matches query) db.users

  abbrev pub ordered : ℕ → List User
  ordered read =
      sorted read (sort_keys query.sort_field) query.sort_order (users_filter matches query)
        db.users

  -- The items of the pages with the numbers from one on, each page read on its own.
  abbrev pub all_users : ℕ → ℕ → List UserItem
  all_users zero page = []
  all_users (suc n) page =
      (get_users mongo sorted matches updated_at page (record query { page = page }) db).items
      ++ all_users n (page + 1)

  all_users-pages :
      (read : ℕ)
      → ((other : ℕ) → ordered other ≡ ordered read)
      → (n page : ℕ)
      → all_users n page
        ≡ map_pages (listed mongo sorted matches updated_at db) query.limit n page (ordered read)
  unfolding get_users
  all_users-pages read same zero page = refl
  all_users-pages read same (suc n) page =
      ap
        (λ is.
          map (listed mongo sorted matches updated_at db) (page_of query.limit page (ordered page))
          ++ is)
        (all_users-pages read same n (page + 1))
      ∙ ap
          (λ us.
            map (listed mongo sorted matches updated_at db) (page_of query.limit page us)
            ++ map_pages (listed mongo sorted matches updated_at db) query.limit n (page + 1)
                (ordered read))
          (same page)

  length-items :
      (us : List User) → length (map (listed mongo sorted matches updated_at db) us) ≡ length us
  length-items [] = refl
  length-items (u ∷ us) = ground (arith, length-items us)

  module _ (before : Before) (sorts : SortsBy before sorted) where
    -- Without ties, every read gives the same order.
    ordered_unique :
        Untied (before (sort_keys query.sort_field) query.sort_order) passing
        → (r s : ℕ) → ordered r ≡ ordered s
    ordered_unique untied r s =
        let keys = sort_keys query.sort_field in
        let perm = λ (n : ℕ).
          sorts.sorted-Perm n keys query.sort_order (users_filter matches query) db.users in
        let in_order = λ (n : ℕ).
          sorts.sorted-InOrder n keys query.sort_order (users_filter matches query) db.users in
        InOrder-unique (before keys query.sort_order) (sorts.irreflexive keys query.sort_order)
          (ordered r) (ordered s) (Perm.trans (perm r) (Perm.symm (perm s))) (in_order r)
          (in_order s)
          λ u v m n. untied u v ((Perm.mem_iff (perm r)).0 m) ((Perm.mem_iff (perm r)).0 n)

    -- If MongoDB sorts as it documents, and no two users who meet the filter have the same keys, then
    -- the pages that an answer counts, each read on its own and one after the other, are the users
    -- that meet the filter, each with the sessions that the user has, in the order of the keys and
    -- each as often as it is stored. No page is longer than the limit, and the total is the number
    -- of these users.
    pub get_users_cover :
        Untied (before (sort_keys query.sort_field) query.sort_order) passing
        → (read : ℕ) → 1 ≤ query.limit
        → (all_users (get_users mongo sorted matches updated_at read query db).total_pages 1
            ≡ map (listed mongo sorted matches updated_at db) (ordered read))
          × Perm (ordered read) passing
          × InOrder (before (sort_keys query.sort_field) query.sort_order) (ordered read)
          × ((get_users mongo sorted matches updated_at read query db).total ≡ length passing)
          × (length (get_users mongo sorted matches updated_at read query db).items ≤ query.limit)
    unfolding get_users
    get_users_cover untied read h = (
      all_users-pages read (λ r. ordered_unique untied r read) (page_count total query.limit) 1
          ∙ map_pages_cover (listed mongo sorted matches updated_at db) query.limit
              (page_count total query.limit) (ordered read) h
              (subst (λ n. n ≤ page_count total query.limit * query.limit)
                (same ∙ sym (length-Perm (ordered read) passing perm))
                (page_count_enough total query.limit h)),
      perm,
      sorts.sorted-InOrder read (sort_keys query.sort_field) query.sort_order
          (users_filter matches query) db.users,
      same,
      omega (
        arith,
        length-items (page_of query.limit query.page (ordered read)),
        length-page_of query.limit query.page (ordered read) h,
      ),
    )
      where
        total : ℕ
        total = length (mongo.find User (users_filter matches query) db.users)

        perm : Perm (ordered read) passing
        perm =
            sorts.sorted-Perm read (sort_keys query.sort_field) query.sort_order
              (users_filter matches query) db.users

        same : total ≡ length passing
        same = ap length (mongo.find_lem User (users_filter matches query) db.users)
