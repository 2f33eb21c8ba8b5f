-- ===== src/Device/Delivery.antt =====
-- Which command a device gets, and how often (backend/src/device/device-commands.service.ts).
use parking_gate_remote.Common.{
  ℕ, ◌≤◌, String, ◌≡◌, ◌≢◌, refl, ap, sym, subst, ◌∙◌, inl, inr, Bool, true, false, none, some,
  List, [], ◌∷◌, ◌&&◌, not, arith, eq_refl, mem-select, any_of_mem, select, first, Bool-cases,
  Option-cases, ltb, any, any-select, any-Perm,
}
use parking_gate_remote.Mongo.{Mongo, Falling}
use parking_gate_remote.Device.{
  Command, Answer, has_id, is_live, get_latest_pending, consume_pending,
}
use mathlib.Core.List.{Mem, mem-cons_self}
use mathlib.Core.List.Perm
use mathlib.Core.Option.{some-injective}

Falling-none_above :
    (rank : Command → ℕ) (n : ℕ) (d : Command) (ds : List Command)
    → rank d ≤ n
    → Falling rank (d ∷ ds)
    → any (λ e. ltb n (rank e)) (d ∷ ds) ≡ false
Falling-none_above rank n d [] le h = ground arith
Falling-none_above rank n d (e ∷ ds) le (le', h) =
    ground (arith, Falling-none_above rank n e ds (omega (arith, le, le')) h)

any-select-not :
    (p : Command → Bool) (ds : List Command) → any (λ d. not (p d)) (select p ds) ≡ false
any-select-not p [] = refl
any-select-not p (d ∷ ds) = ground (arith, any-select-not p ds)

any-and_true : (p : Command → Bool) (ds : List Command) → any (λ d. p d && true) ds ≡ any p ds
any-and_true p [] = refl
any-and_true p (d ∷ ds) = ground (arith, any-and_true p ds)

module _ (mongo : Mongo) (device_id : String) (now : ℕ) (ds : List Command) where
  abbrev found : List Command
  found = mongo.find_sorted Command (is_live device_id now) (λ d. d.created_at) ds

  abbrev newer : Command → Command → Bool
  newer d e = ltb d.created_at e.created_at

  any-found : (p : Command → Bool) → any p found ≡ any (λ d. is_live device_id now d && p d) ds
  any-found p =
      any-Perm p found (select (is_live device_id now) ds)
        (mongo.find_sorted-perm Command (is_live device_id now) (λ d. d.created_at) ds)
      ∙ any-select (is_live device_id now) p ds

  module _ (d : Command) (fs : List Command) (eq : found ≡ d ∷ fs) where
    head-is_live : is_live device_id now d ≡ true
    head-is_live = go (
        sym (ap (any (λ e. not (is_live device_id now e))) eq)
        ∙ any-Perm (λ e. not (is_live device_id now e)) found (select (is_live device_id now) ds)
            (mongo.find_sorted-perm Command (is_live device_id now) (λ d. d.created_at) ds)
        ∙ any-select-not (is_live device_id now) ds)
      where
        go :
            any (λ e. not (is_live device_id now e)) (d ∷ fs) ≡ false
            → is_live device_id now d ≡ true
        go h = ground arith

    head_newest : any (λ e. is_live device_id now e && newer d e) ds ≡ false
    head_newest =
        sym (any-found (newer d))
        ∙ ap (any (newer d)) eq
        ∙ Falling-none_above (λ d. d.created_at) d.created_at d fs (omega arith)
            (subst (Falling (λ d. d.created_at)) eq
              (mongo.find_sorted-Falling Command (is_live device_id now) (λ d. d.created_at) ds))

    head_stored : Mem d ds
    head_stored = mem-select (is_live device_id now) ds d (
        (Perm.mem_iff
            (mongo.find_sorted-perm Command (is_live device_id now) (λ d. d.created_at) ds)).0
          (rw eq mem-cons_self))

  -- A live command, with no newer live one, that is itself an element of the collection.
  abbrev pub IsNewest : Command → Type 0
  IsNewest d =
      (is_live device_id now d ≡ true)
      × (any (λ e. is_live device_id now e && newer d e) ds ≡ false)
      × Mem d ds

  latest-IsNewest :
      (d : Command) (fs : List Command) → found ≡ fs → first (λ d. true) fs ≡ some d → IsNewest d
  latest-IsNewest d [] eq h = ground arith
  latest-IsNewest d (f ∷ fs) eq h =
      subst IsNewest (some-injective f d h)
        (head-is_live f fs eq, head_newest f fs eq, head_stored f fs eq)

  latest_none :
      (fs : List Command)
      → found ≡ fs
      → any (is_live device_id now) ds ≡ true
      → first (λ d. true) fs ≢ none
  latest_none fs eq h = go fs (
      sym (ap (any (λ d. true)) eq)
      ∙ any-found (λ d. true)
      ∙ any-and_true (is_live device_id now) ds
      ∙ h)
    where
      go : (fs : List Command) → any (λ d. true) fs ≡ true → first (λ d. true) fs ≢ none
      go [] k = ground arith
      go (f ∷ fs) k = ground arith

  get_latest_pending-IsNewest :
      (d : Command) → get_latest_pending mongo device_id now ds ≡ some d → IsNewest d
  unfolding get_latest_pending
  get_latest_pending-IsNewest d h = latest-IsNewest d found refl h

  pub IsNewest-known :
      (d : Command) → IsNewest d → any (λ e. is_live device_id now e && has_id d.id e) ds ≡ true
  IsNewest-known d (live, newest, stored) =
      any_of_mem (λ e. is_live device_id now e && has_id d.id e) ds d stored
        (ground (arith, live, eq_refl d.id))

  pub get_latest_pending-known :
      (d : Command)
      → get_latest_pending mongo device_id now ds ≡ some d
      → any (λ e. is_live device_id now e && has_id d.id e) ds ≡ true
  get_latest_pending-known d h = IsNewest-known d (get_latest_pending-IsNewest d h)

  pub get_latest_pending_some :
      any (is_live device_id now) ds ≡ true → get_latest_pending mongo device_id now ds ≢ none
  unfolding get_latest_pending
  get_latest_pending_some h = latest_none found refl h

  pub consume-latest :
      (consume_pending mongo device_id now ds).0 ≡ get_latest_pending mongo device_id now ds
  unfolding consume_pending
  consume-latest = elim (Option-cases (get_latest_pending mongo device_id now ds)) [
    | inl h ↦ ground (arith, h)
    | inr (d, h) ↦ ground (arith, h)
  ]

  abbrev pub IsAnswer : Answer → Type 0
  IsAnswer none = any (is_live device_id now) ds ≡ false
  IsAnswer (some d) = IsNewest d

  latest-IsAnswer : (a : Answer) → get_latest_pending mongo device_id now ds ≡ a → IsAnswer a
  latest-IsAnswer none h = elim (Bool-cases (any (is_live device_id now) ds)) [
    | inl y ↦ absurd (get_latest_pending_some y h)
    | inr n ↦ n
  ]
  latest-IsAnswer (some d) h = get_latest_pending-IsNewest d h

  -- A device that polls gets a document of the collection, unchanged, that is for it, has not been
  -- handed out and has not expired, such that no other such document is newer; it gets none only if
  -- there is no such document.
  pub consume_pending-IsAnswer : IsAnswer ((consume_pending mongo device_id now ds).0)
  consume_pending-IsAnswer = subst IsAnswer (sym consume-latest) (latest-IsAnswer _ refl)
