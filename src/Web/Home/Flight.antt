-- ===== src/Web/Home/Flight.antt =====
-- Requests to open the gate that are under way at the same time (frontend/src/app/page.tsx).
use parking_gate_remote.Common.{◌≤◌, ◌≡◌, Bool, true, not, ◌&&◌, ◌||◌, if◌then◌else◌, arith, ltb}
use parking_gate_remote.Web.Home.{
  Home, is_loading, HomeEvent, pressed, answer, idle_timer, button_timer, connection, happens,
  press_button, open_answered,
}

-- A request is under way exactly while the page says so, and then it is the only one.
abbrev pub IsOrderly : Home → Type 0
IsOrderly h = h.in_flight ≡ (if is_loading h.status then 1 else 0)

-- When an event can happen: an answer needs a request, and a timer one that is set. Here a timer does
-- not go off while a request is under way.
abbrev pub in_time : HomeEvent → Home → Bool
in_time pressed h = true
in_time (answer o) h = ltb 0 h.in_flight
in_time idle_timer h = ltb 0 h.idle_timers && not (is_loading h.status)
in_time button_timer h = ltb 0 h.button_timers
in_time (connection online) h = true

happens-IsOrderly :
    (e : HomeEvent) (h : Home) → IsOrderly h → in_time e h ≡ true → IsOrderly (happens e h)
unfolding happens press_button open_answered
happens-IsOrderly pressed h o k = ground (arith, o)
happens-IsOrderly (answer r) h o k = ground (arith, o, k)
happens-IsOrderly idle_timer h o k = ground (arith, o, k)
happens-IsOrderly button_timer h o k = o
happens-IsOrderly (connection online) h o k = o

-- One event after the other, the one that happened last on the outside.
pub data Reaches (start : Home) : Home → Type 0 where
  at_once : Reaches start start
  and_then :
      {h : Home}
      → Reaches start h
      → (e : HomeEvent) → in_time e h ≡ true
      → Reaches start (happens e h)

Reaches-IsOrderly : (start h : Home) → IsOrderly start → Reaches start h → IsOrderly h
Reaches-IsOrderly start h o at_once = o
Reaches-IsOrderly start h o (and_then {h = g} r e k) =
    happens-IsOrderly e g (Reaches-IsOrderly start g o r) k

-- If at the start no request is under way unless the page says so, and no timer goes off while one is
-- under way, then there is never more than one, whatever is pressed and open_answered; and a press_button makes a
-- request exactly if none is under way and the browser is online.
pub Reaches-one_request :
    (start h : Home)
    → IsOrderly start
    → Reaches start h
    → (h.in_flight ≤ 1)
      × ((happens pressed h).in_flight
          ≡ (if ltb 0 h.in_flight || h.is_offline then h.in_flight else 1))
unfolding happens press_button
Reaches-one_request start h o r = let here = Reaches-IsOrderly start h o r in ground (arith, here)
