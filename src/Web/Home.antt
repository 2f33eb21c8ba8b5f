-- ===== src/Web/Home.antt =====
-- The page with the button that opens the gate: frontend/src/app/page.tsx, with
-- components/GateButton.tsx, which asks the page to open and keeps a status of its own. Timers are
-- counted: one that is set goes off later, at any time.
pub mod Flight
mod Tests
use parking_gate_remote.Common.{
  ℕ, ◌+◌, ◌-◌, String, Bool, true, false, not, Option, none, some, List, [], ◌∷◌, ◌==◌, ◌&&◌, ◌||◌,
  if◌then◌else◌, any, eqb, leb,
}
use parking_gate_remote.Gate.Messages.{DeviceStatus}
use parking_gate_remote.Web.Api.{Outcome, done, api_error, syntax_error}
use parking_gate_remote.Web.Admin.Fleet.{is_actually_online}

pub data FeedbackState : Type 0 where
  idle loading success error : FeedbackState

-- The page, with the requests under way, the timers that are set, and those that lead to the login.
pub record Home : Type 0 where
  pub status : FeedbackState
  pub is_offline : Bool
  pub device_online : Option Bool
  pub in_flight : ℕ
  pub idle_timers : ℕ
  pub login_timers : ℕ
  pub button : FeedbackState
  pub button_timers : ℕ

abbrev pub is_loading : FeedbackState → Bool
is_loading loading = true
is_loading _ = false

-- `checkDeviceStatus`, with the devices that the server answers with, if it does
abbrev pub check_device_status : ℕ → Option (List DeviceStatus) → Home → Home
check_device_status now none h = record h { device_online = none }
check_device_status now (some ds) h = record h {
  device_online = some (any (is_actually_online now) ds);
}

abbrev pub is_disabled : Home → Bool
is_disabled h = h.is_offline || is_loading h.status

-- `handlePress` of the button and with it `handleOpenGate`, up to the request
unfoldable pub press_button : Home → Home
press_button h =
    if is_disabled h
    then h
    else record h { button = loading; status = loading; in_flight = h.in_flight + 1 }

-- The button's part of an answer: an error comes to it only if the user has to log in again.
abbrev pub button_settled : Bool → Home → Home
button_settled failed h = record h {
  button = if failed then error else success;
  button_timers = h.button_timers + 1;
}

abbrev back_to_idle : FeedbackState → Home → Home
back_to_idle s h = record h { status = s; idle_timers = h.idle_timers + 1 }

abbrev must_log_in : Outcome → Bool
must_log_in (api_error m s) = m == "AUTH_UNAUTHORIZED"
must_log_in (done j) = false
must_log_in syntax_error = false

abbrev is_done : Outcome → Bool
is_done (done j) = true
is_done (api_error m s) = false
is_done syntax_error = false

-- `handleOpenGate` and `handlePress` from the answer on
unfoldable pub open_answered : Outcome → Home → Home
open_answered o h =
    let rest = record h { in_flight = h.in_flight - 1 } in
    if is_done o
    then button_settled false (back_to_idle success rest)
    else if must_log_in o
    then button_settled true (record rest { status = error; login_timers = rest.login_timers + 1 })
    else button_settled false (back_to_idle error rest)

abbrev server_failed : Option ℕ → Bool
server_failed none = false
server_failed (some n) = leb 500 n

abbrev says_conflict : Option ℕ → Bool
says_conflict none = false
says_conflict (some n) = eqb n 409

-- the message that an answer is shown by
abbrev pub open_message : Outcome → String
open_message (done j) = "\u{5d4}\u{5e9}\u{5e2}\u{5e8} \u{5e0}\u{5e4}\u{5ea}\u{5d7}"
open_message syntax_error =
    "\u{5d0}\u{5d9}\u{5df} \u{5ea}\u{5e7}\u{5e9}\u{5d5}\u{5e8}\u{5ea} \u{5e2}\u{5dd} \u{5d4}\u{5e9}\u{5e8}\u{5ea}, \u{5e0}\u{5e1}\u{5d4} \u{5e9}\u{5d5}\u{5d1}"
open_message (api_error m s) =
    if m == "AUTH_UNAUTHORIZED"
    then "\u{5e0}\u{5d3}\u{5e8}\u{5e9} \u{5dc}\u{5d4}\u{5ea}\u{5d7}\u{5d1}\u{5e8} \u{5de}\u{5d7}\u{5d3}\u{5e9}"
    else if m == "AUTH_FORBIDDEN"
    then "\u{5d0}\u{5d9}\u{5df} \u{5dc}\u{5da} \u{5d4}\u{5e8}\u{5e9}\u{5d0}\u{5d4} \u{5dc}\u{5e4}\u{5ea}\u{5d5}\u{5d7} \u{5e9}\u{5e2}\u{5e8}"
    else if says_conflict s
    then "\u{5d4}\u{5de}\u{5e9}\u{5ea}\u{5de}\u{5e9} \u{5de}\u{5d7}\u{5d5}\u{5d1}\u{5e8} \u{5db}\u{5d1}\u{5e8} \u{5de}\u{5de}\u{5db}\u{5e9}\u{5d9}\u{5e8} \u{5d0}\u{5d7}\u{5e8}"
    else if server_failed s
    then "\u{5d0}\u{5d9}\u{5df} \u{5ea}\u{5e7}\u{5e9}\u{5d5}\u{5e8}\u{5ea} \u{5e2}\u{5dd} \u{5d4}\u{5e9}\u{5e8}\u{5ea}, \u{5e0}\u{5e1}\u{5d4} \u{5e9}\u{5d5}\u{5d1}"
    else if m == ""
    then "\u{5e9}\u{5d2}\u{5d9}\u{5d0}\u{5d4} \u{5d1}\u{5e4}\u{5ea}\u{5d9}\u{5d7}\u{5ea} \u{5d4}\u{5e9}\u{5e2}\u{5e8}"
    else m

-- What happens on the page.
pub data HomeEvent : Type 0 where
  pressed : HomeEvent
  answer : Outcome → HomeEvent
  idle_timer : HomeEvent
  button_timer : HomeEvent
  connection : Bool → HomeEvent

unfoldable pub happens : HomeEvent → Home → Home
happens pressed h = press_button h
happens (answer o) h = open_answered o h
happens idle_timer h = record h { status = idle; idle_timers = h.idle_timers - 1 }
happens button_timer h = record h { button = idle; button_timers = h.button_timers - 1 }
happens (connection online) h = record h { is_offline = not online }
