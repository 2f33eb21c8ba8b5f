-- ===== src/Web/Home/Tests.antt =====
-- A timer that goes off too late (frontend/src/app/page.tsx).
use parking_gate_remote.Common.{
  ◌≤◌, ◌≡◌, refl, false, none, List, [], ◌∷◌, ◌||◌, if◌then◌else◌, ltb,
}
use parking_gate_remote.Common.Json.{null}
use parking_gate_remote.Web.Api.{done}
use parking_gate_remote.Web.Home.{
  Home, idle, HomeEvent, pressed, answer, idle_timer, happens, press_button, open_answered,
}
use parking_gate_remote.Web.Home.Flight.{at_once, and_then, Reaches-one_request}

abbrev at_rest : Home
at_rest = record {
  status = idle;
  is_offline = false;
  device_online = none;
  in_flight = 0;
  idle_timers = 0;
  login_timers = 0;
  button = idle;
  button_timers = 0;
}

-- The events one after the other, the first one first.
abbrev session : List HomeEvent → Home → Home
session [] h = h
session (e ∷ es) h = session es (happens e h)

-- The timer of the first opening goes off while the second is under way, and a third press_button makes
-- another request.
two_at_once :
    (session (pressed ∷ answer (done null) ∷ pressed ∷ idle_timer ∷ pressed ∷ []) at_rest).in_flight
    ≡ 2
unfolding happens press_button open_answered
two_at_once = refl

in_order :
    (session (pressed ∷ answer (done null) ∷ idle_timer ∷ pressed ∷ pressed ∷ []) at_rest).in_flight
    ≡ 1
unfolding happens press_button open_answered
in_order = refl

Reaches-one_request_example :
    ((happens pressed at_rest).in_flight ≤ 1)
    × ((happens pressed (happens pressed at_rest)).in_flight ≡ (
        if ltb 0 (happens pressed at_rest).in_flight || (happens pressed at_rest).is_offline
        then (happens pressed at_rest).in_flight
        else 1))
Reaches-one_request_example =
    Reaches-one_request at_rest (happens pressed at_rest) refl (and_then at_once pressed refl)
