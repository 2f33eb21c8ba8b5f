-- ===== src/Web/Navigation/Tests.antt =====
-- A user who is no admin asks for an admin page (frontend/src/components/NavigationGuard.tsx).
use parking_gate_remote.Common.{◌≡◌, ◌↔◌, refl, true, false, none, some}
use parking_gate_remote.Users.Schema.{approved, user}
use parking_gate_remote.Web.Navigation.{
  Auth, guard_redirect, guard_shows, require_redirect, require_shows,
}
use parking_gate_remote.Web.Navigation.Settled.{may_stay, follow, guard_redirect_settles}

abbrev tenant : Auth
tenant = record {
  visitor = some (record { status = approved; role = user });
  loading = false;
  is_ready = true;
}

-- Before the effect has run, the page is shown.
shown_meanwhile : guard_shows tenant "/admin/users" ≡ true
unfolding guard_shows
shown_meanwhile = refl

not_shown : require_shows true true tenant ≡ false
unfolding require_shows
not_shown = refl

sent_home : require_redirect true true tenant ≡ some "/"
unfolding require_redirect
sent_home = refl

guard_redirect_settles_example :
    ((guard_redirect tenant "/admin/users" ≡ none)
      ↔ (may_stay tenant.visitor "/admin/users" ≡ true))
    × (guard_redirect tenant (follow (guard_redirect tenant "/admin/users") "/admin/users") ≡ none)
    × (guard_shows tenant (follow (guard_redirect tenant "/admin/users") "/admin/users") ≡ true)
    × (may_stay tenant.visitor (follow (guard_redirect tenant "/admin/users") "/admin/users")
        ≡ true)
guard_redirect_settles_example = guard_redirect_settles tenant "/admin/users" refl
