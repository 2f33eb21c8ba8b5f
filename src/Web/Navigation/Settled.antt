-- ===== src/Web/Navigation/Settled.antt =====
-- Where a visitor comes to rest (frontend/src/components/NavigationGuard.tsx).
use parking_gate_remote.Common.{
  String, ◌≡◌, refl, ◌↔◌, Bool, true, false, not, Option, none, some, ◌==◌, ◌||◌, Bool-cases, ◌⊎◌,
  inl, inr, arith,
}
use parking_gate_remote.Users.Schema.{
  Status, pending, approved, rejected, archived, Role, user, admin,
}
use parking_gate_remote.Web.Navigation.{
  Visitor, Auth, is_settled, is_admin_path, user_redirect, guard_redirect, user_shown, guard_shows,
}

abbrev pub visitor_may_stay : Status → Role → String → Bool
visitor_may_stay rejected role path = path == "/login"
visitor_may_stay archived role path = path == "/login"
visitor_may_stay pending role path = path == "/pending"
visitor_may_stay approved user path =
    not (path == "/pending" || path == "/login" || path == "/register" || is_admin_path path)
visitor_may_stay approved admin path =
    not (path == "/pending" || path == "/login" || path == "/register")

-- The paths that a visitor may stay on.
abbrev pub may_stay : Option Visitor → String → Bool
may_stay none path =
    "/login" == path
    || "/register" == path
    || "/forgot-password" == path
    || "/reset-password" == path
may_stay (some v) path = visitor_may_stay v.status v.role path

-- the path after the effect of the guard has run once
abbrev pub follow : Option String → String → String
follow none path = path
follow (some target) path = target

-- What is so at a path that the guard leaves alone: it is shown, and the visitor may stay.
abbrev IsRest : Option Visitor → String → Type 0
IsRest v path =
    (user_redirect v path ≡ none) × (user_shown v path ≡ true) × (may_stay v path ≡ true)

-- Either the visitor stays, or is sent to a path to stay on.
abbrev Moves : Option Visitor → String → Type 0
Moves v path =
    IsRest v path
    ⊎ ((target : String) × (user_redirect v path ≡ some target)
        × (may_stay v path ≡ false)
        × IsRest v target)

visitor-Moves :
    (s : Status) (r : Role) (path : String) → Moves (some (record { status = s; role = r })) path
visitor-Moves rejected r path = elim (Bool-cases (path == "/login")) [
  | inl e ↦ inl (ground (arith, e), e, e)
  | inr e ↦ inr ("/login", ground (arith, e), e, (refl, refl, refl))
]
visitor-Moves archived r path = elim (Bool-cases (path == "/login")) [
  | inl e ↦ inl (ground (arith, e), e, e)
  | inr e ↦ inr ("/login", ground (arith, e), e, (refl, refl, refl))
]
visitor-Moves pending r path = elim (Bool-cases (path == "/pending")) [
  | inl e ↦ inl (ground (arith, e), e, e)
  | inr e ↦ inr ("/pending", ground (arith, e), e, (refl, refl, refl))
]
visitor-Moves approved user path =
    elim (Bool-cases (may_stay (some (record { status = approved; role = user })) path)) [
      | inl e ↦ inl (ground (arith, e), refl, e)
      | inr e ↦ inr ("/", ground (arith, e), e, (refl, refl, refl))
    ]
visitor-Moves approved admin path =
    elim (Bool-cases (may_stay (some (record { status = approved; role = admin })) path)) [
      | inl e ↦ inl (ground (arith, e), refl, e)
      | inr e ↦ inr ("/", ground (arith, e), e, (refl, refl, refl))
    ]

user-Moves : (v : Option Visitor) (path : String) → Moves v path
user-Moves none path = elim (Bool-cases (may_stay none path)) [
  | inl e ↦ inl (ground (arith, e), ground (arith, e), e)
  | inr e ↦ inr ("/login", ground (arith, e), e, (refl, refl, refl))
]
user-Moves (some v) path = visitor-Moves v.status v.role path

-- Once it is known who the visitor is, the guard comes to rest after one redirection at most: it
-- leaves a path alone exactly if the visitor may stay there, which `may_stay` says for each status
-- and role; and where its effect leads it has no further redirection, the page is shown, and the
-- visitor may stay.
pub guard_redirect_settles :
    (a : Auth) (path : String)
    → is_settled a ≡ true
    → ((guard_redirect a path ≡ none) ↔ (may_stay a.visitor path ≡ true))
      × (guard_redirect a (follow (guard_redirect a path) path) ≡ none)
      × (guard_shows a (follow (guard_redirect a path) path) ≡ true)
      × (may_stay a.visitor (follow (guard_redirect a path) path) ≡ true)
unfolding guard_redirect guard_shows
guard_redirect_settles a path h = elim (user-Moves a.visitor path) [
  | inl (still, shown, stay) ↦ ground (arith, h, still, shown, stay)
  | inr (target, moved, leave, (still, shown, stay)) ↦
      ground (arith, h, moved, leave, still, shown, stay)
]
