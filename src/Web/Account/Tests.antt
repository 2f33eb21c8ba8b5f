-- ===== src/Web/Account/Tests.antt =====
-- A refresh that fails half-way, an id that is stored, and times (frontend/src/context/AuthContext.tsx,
-- frontend/src/lib/auth.ts, frontend/src/lib/time.ts).
use parking_gate_remote.Common.{ℕ, String, ◌≡◌, refl, true, false, none, some}
use parking_gate_remote.Web.Account.{
  Account, refresh_account, get_or_create_device_id, format_relative_time,
}

abbrev signed_in_before : Account ℕ ℕ
signed_in_before = record {
  user = some 1;
  token = some 2;
  loading = true;
  is_ready = false;
  access_token = some "old";
}

half_way :
    refresh_account (some "new") none signed_in_before
    ≡ record { user = none; token = none; loading = false; is_ready = true; access_token = none }
unfolding refresh_account
half_way = refl

-- The id is made once.
made_once :
    (new : String)
    → get_or_create_device_id new (get_or_create_device_id "d1" (some none)).1
      ≡ ("d1", some (some "d1"))
unfolding get_or_create_device_id
made_once new = refl

to_come : format_relative_time (λ t. "") 1000 2000 ≡ format_relative_time (λ t. "") 2000 1000
unfolding format_relative_time
to_come = refl
