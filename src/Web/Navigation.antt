-- ===== src/Web/Navigation.antt =====
-- Where a visitor is sent and what is shown: frontend/src/components/NavigationGuard.tsx and
-- RequireAuth.tsx. A user's status and role are the server's.
pub mod Settled
mod Tests
use parking_gate_remote.Common.{
  String, Bool, true, false, not, Option, none, some, List, [], ◌∷◌, ◌==◌, ◌&&◌, ◌||◌,
  if◌then◌else◌, any,
}
use parking_gate_remote.Common.Text.{codes, starts_with}
use parking_gate_remote.Users.Schema.{
  Status, pending, approved, rejected, archived, Role, user, admin,
}

-- What the two components read of the user.
pub record Visitor : Type 0 where
  pub status : Status
  pub role : Role

-- What `useAuth` gives.
pub record Auth : Type 0 where
  pub visitor : Option Visitor
  pub loading : Bool
  pub is_ready : Bool

abbrev pub is_settled : Auth → Bool
is_settled a = a.is_ready && not a.loading

abbrev pub public_paths : List String
public_paths = "/login" ∷ "/register" ∷ "/forgot-password" ∷ "/reset-password" ∷ []

abbrev pub is_public : String → Bool
is_public path = any (λ p. p == path) public_paths

abbrev pub is_admin_path : String → Bool
is_admin_path path = path == "/admin" || starts_with (codes "/admin/") (codes path)

abbrev pub unless_there : String → String → Option String
unless_there target path = if path == target then none else some target

abbrev pub is_admin : Role → Bool
is_admin user = false
is_admin admin = true

abbrev pub approved_redirect : Role → String → Option String
approved_redirect role path =
    if path == "/pending" || path == "/login" || path == "/register"
    then some "/"
    else if is_admin_path path
    then if is_admin role then none else some "/"
    else none

abbrev pub visitor_redirect : Status → Role → String → Option String
visitor_redirect rejected role path = unless_there "/login" path
visitor_redirect archived role path = unless_there "/login" path
visitor_redirect pending role path = unless_there "/pending" path
visitor_redirect approved role path = approved_redirect role path

abbrev pub user_redirect : Option Visitor → String → Option String
user_redirect none path = if is_public path then none else some "/login"
user_redirect (some v) path = visitor_redirect v.status v.role path

-- the effect of `NavigationGuard`: the path that it replaces the present one by, if any
unfoldable pub guard_redirect : Auth → String → Option String
guard_redirect a path = if is_settled a then user_redirect a.visitor path else none

abbrev pub visitor_shown : Status → String → Bool
visitor_shown rejected path = path == "/login"
visitor_shown archived path = path == "/login"
visitor_shown pending path = path == "/pending"
visitor_shown approved path = true

abbrev pub user_shown : Option Visitor → String → Bool
user_shown none path = is_public path
user_shown (some v) path = visitor_shown v.status path

-- whether `NavigationGuard` renders the page
unfoldable pub guard_shows : Auth → String → Bool
guard_shows a path = is_settled a && user_shown a.visitor path

abbrev pub is_approved : Status → Bool
is_approved approved = true
is_approved _ = false

abbrev pub require_visitor : Bool → Bool → Visitor → Option String
require_visitor require_approved require_admin v =
    if require_approved && not (is_approved v.status)
    then some "/pending"
    else if require_admin && not (is_admin v.role)
    then some "/"
    else none

abbrev pub require_user : Bool → Bool → Option Visitor → Option String
require_user require_approved require_admin none = some "/login"
require_user require_approved require_admin (some v) =
    require_visitor require_approved require_admin v

-- the effect of `RequireAuth`: the path that it pushes, if any
unfoldable pub require_redirect : Bool → Bool → Auth → Option String
require_redirect require_approved require_admin a =
    if is_settled a then require_user require_approved require_admin a.visitor else none

abbrev pub is_none : Option String → Bool
is_none none = true
is_none (some s) = false

-- whether `RequireAuth` renders what it holds: its tests are those of its effect
unfoldable pub require_shows : Bool → Bool → Auth → Bool
require_shows require_approved require_admin a =
    is_settled a && is_none (require_user require_approved require_admin a.visitor)
