-- ===== src/Web/Account.antt =====
-- Who is logged in, for the pages: AuthProvider of frontend/src/context/AuthContext.tsx, the identity
-- of the device of frontend/src/lib/auth.ts, and the times of frontend/src/lib/time.ts. The answers of
-- the server are parameters, `none` where a call fails; so are a new id and the text of a date.
mod Tests
use parking_gate_remote.Common.{
  ℕ, ◌-◌, ◌/◌, String, Bool, true, false, not, Option, none, some, ◌==◌, ltb, truthy, text_or,
  if◌then◌else◌, pos,
}
use parking_gate_remote.Web.Api.{joined}
use parking_gate_remote.Web.Numerals.{number_text}

-- The states of the provider and the access token of the calls, for users and infos of some types.
pub record Account (U I : Type 0) : Type 0 where
  pub user : Option U
  pub token : Option I
  pub loading : Bool
  pub is_ready : Bool
  pub access_token : Option String

-- What `/auth/me` answers with.
pub record Me (U I : Type 0) : Type 0 where
  pub user : U
  pub token : Option I

-- What a login answers with.
pub record LoginAnswer (U : Type 0) : Type 0 where
  pub user : U
  pub access_token : String

module _ {U I : Type 0} where
  abbrev pub signed_out : Account U I → Account U I
  signed_out a = record a { access_token = none; user = none; token = none }

  abbrev pub signed_in : Me U I → Account U I → Account U I
  signed_in me a = record a { user = some me.user; token = me.token }

  -- `refresh`, by the answers to refreshToken, which stores the access token, and to `/auth/me`
  unfoldable pub refresh_account : Option String → Option (Me U I) → Account U I → Account U I
  refresh_account none me a = record (signed_out a) { is_ready = true; loading = false }
  refresh_account (some t) none a = record (signed_out a) { is_ready = true; loading = false }
  refresh_account (some t) (some me) a =
      record (signed_in me (record a { access_token = some t })) {
        is_ready = true;
        loading = false;
      }

  abbrev with_info : Option (Me U I) → Account U I → Account U I
  with_info none a = a
  with_info (some me) a = record a { token = me.token }

  -- `login`, with the path that it leads to; a login that fails throws and changes nothing.
  unfoldable pub login_account :
      Option (LoginAnswer U) → Option (Me U I) → Account U I → Option String × Account U I
  login_account none me a = (none, a)
  login_account (some l) me a = (
    some "/",
    record (with_info me (record a { access_token = some l.access_token; user = some l.user })) {
      loading = false;
    },
  )

  -- `logout`, whatever its call comes to
  unfoldable pub logout_account : Account U I → String × Account U I
  logout_account a = ("/login", signed_out a)

  -- `updateUser`
  unfoldable pub update_account : Option U → Account U I → Account U I
  update_account none a = a
  update_account (some u) a = record a { user = some u }

-- `getOrCreateDeviceId`: the id, and what the storage of the browser holds, which is `none` without
-- a window.
unfoldable pub get_or_create_device_id :
    String → Option (Option String) → String × Option (Option String)
get_or_create_device_id new none = (new, none)
get_or_create_device_id new (some stored) =
    if truthy stored then (text_or stored "", some stored) else (new, some (some new))

abbrev ago : ℕ → String → String
ago n unit = joined "\u{5dc}\u{5e4}\u{5e0}\u{5d9} " (joined (number_text (pos n)) unit)

-- `formatRelativeTime`; a time that is to come counts as the present.
unfoldable pub format_relative_time : (ℕ → String) → ℕ → ℕ → String
format_relative_time date now time =
    let seconds = (now - time) / 1000 in
    let minutes = seconds / 60 in
    let hours = minutes / 60 in
    let days = hours / 24 in
    if ltb seconds 60
    then "\u{5dc}\u{5e4}\u{5e0}\u{5d9} \u{5e8}\u{5d2}\u{5e2}"
    else if ltb minutes 60
    then ago minutes " \u{5d3}\u{5e7}\u{5d5}\u{5ea}"
    else if ltb hours 24
    then ago hours " \u{5e9}\u{5e2}\u{5d5}\u{5ea}"
    else if ltb days 7
    then ago days " \u{5d9}\u{5de}\u{5d9}\u{5dd}"
    else date time
