-- ===== src/Web/Admin/Dialogs/Tidy.antt =====
-- One dialog at a time, and what late answers do to that (frontend/src/app/admin/AdminPageContent.tsx).
use parking_gate_remote.Common.{
  ℕ, ◌+◌, String, ◌≡◌, refl, ◌∙◌, Bool, true, false, not, Option, none, some, ◌&&◌, ◌||◌,
  if◌then◌else◌, leb, if-holds, arith,
}
use parking_gate_remote.Admin.Listing.{UserItem}
use parking_gate_remote.Gate.Pages.{LogItem}
use parking_gate_remote.Web.Admin.Dialogs.{
  Dialogs, PageEvent, happens, escape, edit_form_has_changes, reject_clicked, edit_clicked,
  delete_clicked, approve_all_clicked, log_clicked, diagnostics_clicked, typed_reason, typed_form,
  typed_password, reset_clicked, reset_given_up, escape_pressed, reject_given_up,
  approve_all_closed, delete_given_up, edit_closed, close_confirmed, close_given_up, log_closed,
  diagnostics_closed, rejected_answer, deleted_answer, edited_answer, password_answer,
  diagnostics_answer, diagnostics_error_answer, open_reject, open_edit, open_delete, open_log,
  open_diagnostics, reject_done, delete_done, edit_saved, confirm_close_edit, close_log,
  close_diagnostics, close_edit,
}

abbrev count : Bool → ℕ
count b = if b then 1 else 0

-- How many dialogs are open, the question whether to close left aside.
abbrev pub open_count : Dialogs → ℕ
open_count s =
    count s.reject_open
    + (count s.approve_all_open
        + (count s.delete_open
            + (count s.edit_open + (count s.log_open + count s.diagnostics_open))))

abbrev pub nothing_open : Dialogs → Bool
nothing_open s =
    not s.reject_open
    && not s.approve_all_open
    && not s.delete_open
    && not s.edit_open
    && not s.log_open
    && not s.diagnostics_open

abbrev is_given {ℓ} : {A : Type ℓ} → Option A → Bool
is_given none = false
is_given (some a) = true

abbrev implies : Bool → Bool → Bool
implies a b = not a || b

-- At most one dialog is open, it has what it is about, and the question whether to close is only
-- asked over the edit form.
abbrev pub is_tidy : Dialogs → Bool
is_tidy s =
    leb (open_count s) 1
    && implies s.reject_open (is_given s.selected)
    && implies s.edit_open (is_given s.selected)
    && implies s.delete_open (is_given s.user_to_delete)
    && implies s.log_open (is_given s.selected_log)
    && implies s.diagnostics_open (is_given s.diagnostics_device)
    && implies s.confirm_close s.edit_open

-- When an event can happen: a dialog is opened from the page, which an open one covers; a button
-- needs its dialog; Escape and the answers of the server come at any time.
abbrev pub can_happen : PageEvent → Dialogs → Bool
can_happen (reject_clicked u) s = nothing_open s
can_happen (edit_clicked u) s = nothing_open s
can_happen (delete_clicked u) s = nothing_open s
can_happen approve_all_clicked s = nothing_open s
can_happen (log_clicked l) s = nothing_open s
can_happen (diagnostics_clicked d) s = nothing_open s
can_happen (typed_reason t) s = s.reject_open
can_happen (typed_form f) s = s.edit_open
can_happen (typed_password p) s = s.edit_open
can_happen reset_clicked s = s.edit_open
can_happen reset_given_up s = s.edit_open
can_happen escape_pressed s = true
can_happen reject_given_up s = s.reject_open
can_happen approve_all_closed s = s.approve_all_open
can_happen delete_given_up s = s.delete_open
can_happen edit_closed s = s.edit_open
can_happen close_confirmed s = s.confirm_close
can_happen close_given_up s = s.confirm_close
can_happen log_closed s = s.log_open
can_happen diagnostics_closed s = s.diagnostics_open
can_happen rejected_answer s = true
can_happen deleted_answer s = true
can_happen edited_answer s = true
can_happen password_answer s = true
can_happen (diagnostics_answer ls) s = true
can_happen (diagnostics_error_answer m) s = true

-- Whether an event is no late answer: the answer to a rejection is late while an edit form is open,
-- and the answer to an edit while the question whether to close is asked or a rejection is open.
abbrev pub in_time : PageEvent → Dialogs → Bool
in_time rejected_answer s = not s.edit_open
in_time edited_answer s = not s.confirm_close && not s.reject_open
in_time _ s = true

pub escape-is_tidy : (s : Dialogs) → is_tidy s ≡ true → is_tidy (escape s) ≡ true
unfolding escape
escape-is_tidy s h = ground (arith, h)

open_reject-is_tidy :
    (u : UserItem) (s : Dialogs)
    → is_tidy s ≡ true
    → (nothing_open s) ≡ true
    → is_tidy (open_reject u s) ≡ true
open_reject-is_tidy u s h k = ground (arith, h, k)

open_edit-is_tidy :
    (u : UserItem) (s : Dialogs)
    → is_tidy s ≡ true
    → (nothing_open s) ≡ true
    → is_tidy (open_edit u s) ≡ true
open_edit-is_tidy u s h k = ground (arith, h, k)

open_delete-is_tidy :
    (u : UserItem) (s : Dialogs)
    → is_tidy s ≡ true
    → (nothing_open s) ≡ true
    → is_tidy (open_delete u s) ≡ true
open_delete-is_tidy u s h k = ground (arith, h, k)

open_log-is_tidy :
    (l : LogItem) (s : Dialogs)
    → is_tidy s ≡ true
    → (nothing_open s) ≡ true
    → is_tidy (open_log l s) ≡ true
open_log-is_tidy l s h k = ground (arith, h, k)

open_diagnostics-is_tidy :
    (d : String) (s : Dialogs)
    → is_tidy s ≡ true
    → (nothing_open s) ≡ true
    → is_tidy (open_diagnostics d s) ≡ true
open_diagnostics-is_tidy d s h k = ground (arith, h, k)

reject_done-is_tidy :
    (s : Dialogs) → is_tidy s ≡ true → (not s.edit_open) ≡ true → is_tidy (reject_done s) ≡ true
reject_done-is_tidy s h k = ground (arith, h, k)

delete_done-is_tidy : (s : Dialogs) → is_tidy s ≡ true → is_tidy (delete_done s) ≡ true
delete_done-is_tidy s h = ground (arith, h)

reject_done-in_time : (s : Dialogs) → is_tidy s ≡ true → is_tidy (reject_done s) ≡ not s.edit_open
reject_done-in_time s h = ground (arith, h)

edit_saved-in_time :
    (s : Dialogs)
    → is_tidy s ≡ true
    → is_tidy (edit_saved s) ≡ (not s.confirm_close && not s.reject_open)
edit_saved-in_time s h = ground (arith, h)

confirm_close_edit-is_tidy :
    (s : Dialogs)
    → is_tidy s ≡ true
    → (not s.reject_open) ≡ true
    → is_tidy (confirm_close_edit s) ≡ true
confirm_close_edit-is_tidy s h k = ground (arith, h, k)

close_log-is_tidy : (s : Dialogs) → is_tidy s ≡ true → is_tidy (close_log s) ≡ true
close_log-is_tidy s h = ground (arith, h)

close_diagnostics-is_tidy : (s : Dialogs) → is_tidy s ≡ true → is_tidy (close_diagnostics s) ≡ true
close_diagnostics-is_tidy s h = ground (arith, h)

only_one : (s : Dialogs) → is_tidy s ≡ true → s.edit_open ≡ true → not s.reject_open ≡ true
only_one s h k = ground (arith, h, k)

asked_over_edit : (s : Dialogs) → is_tidy s ≡ true → s.confirm_close ≡ true → s.edit_open ≡ true
asked_over_edit s h k = ground (arith, h, k)

asking-is_tidy :
    (s : Dialogs)
    → is_tidy s ≡ true
    → s.edit_open ≡ true
    → is_tidy (record s { confirm_close = true }) ≡ true
asking-is_tidy s h k = ground (arith, h, k)

close_edit-is_tidy :
    (s : Dialogs) → is_tidy s ≡ true → s.edit_open ≡ true → is_tidy (close_edit s) ≡ true
close_edit-is_tidy s h k =
    if-holds (λ (t : Dialogs). is_tidy t ≡ true) (edit_form_has_changes s)
      (record s { confirm_close = true }) (confirm_close_edit s) (asking-is_tidy s h k)
      (confirm_close_edit-is_tidy s h (only_one s h k))

approve_all-is_tidy :
    (b : Bool) (s : Dialogs)
    → is_tidy s ≡ true
    → (not b || nothing_open s) ≡ true
    → is_tidy (record s { approve_all_open = b }) ≡ true
approve_all-is_tidy b s h k = ground (arith, h, k)

answered-is_tidy :
    (s : Dialogs) → is_tidy s ≡ true → is_tidy (record s { confirm_close = false }) ≡ true
answered-is_tidy s h = ground (arith, h)

over_reject : (s : Dialogs) → is_tidy s ≡ true → s.reject_open ≡ true → not s.edit_open ≡ true
over_reject s h k = ground (arith, h, k)

-- An event in time leaves a tidy page tidy, and a late answer never does.
happens-is_tidy :
    (e : PageEvent) (s : Dialogs)
    → is_tidy s ≡ true
    → can_happen e s ≡ true
    → is_tidy (happens e s) ≡ in_time e s
unfolding happens
happens-is_tidy (reject_clicked u) s h k = open_reject-is_tidy u s h k
happens-is_tidy (edit_clicked u) s h k = open_edit-is_tidy u s h k
happens-is_tidy (delete_clicked u) s h k = open_delete-is_tidy u s h k
happens-is_tidy approve_all_clicked s h k = approve_all-is_tidy true s h k
happens-is_tidy (log_clicked l) s h k = open_log-is_tidy l s h k
happens-is_tidy (diagnostics_clicked d) s h k = open_diagnostics-is_tidy d s h k
happens-is_tidy (typed_reason t) s h k = h
happens-is_tidy (typed_form f) s h k = h
happens-is_tidy (typed_password p) s h k = h
happens-is_tidy reset_clicked s h k = h
happens-is_tidy reset_given_up s h k = h
happens-is_tidy escape_pressed s h k = escape-is_tidy s h
happens-is_tidy reject_given_up s h k = reject_done-is_tidy s h (over_reject s h k)
happens-is_tidy approve_all_closed s h k = approve_all-is_tidy false s h refl
happens-is_tidy delete_given_up s h k = delete_done-is_tidy s h
happens-is_tidy edit_closed s h k = close_edit-is_tidy s h k
happens-is_tidy close_confirmed s h k =
    confirm_close_edit-is_tidy s h (only_one s h (asked_over_edit s h k))
happens-is_tidy close_given_up s h k = answered-is_tidy s h
happens-is_tidy log_closed s h k = close_log-is_tidy s h
happens-is_tidy diagnostics_closed s h k = close_diagnostics-is_tidy s h
happens-is_tidy rejected_answer s h k = reject_done-in_time s h
happens-is_tidy deleted_answer s h k = delete_done-is_tidy s h
happens-is_tidy edited_answer s h k = edit_saved-in_time s h
happens-is_tidy password_answer s h k = h
happens-is_tidy (diagnostics_answer ls) s h k = h
happens-is_tidy (diagnostics_error_answer m) s h k = h

-- One event after the other, the one that happened last on the outside, with no late answer.
pub data Reaches (start : Dialogs) : Dialogs → Type 0 where
  at_once : Reaches start start
  and_then :
      {s : Dialogs}
      → Reaches start s
      → (e : PageEvent) → can_happen e s ≡ true
      → in_time e s ≡ true
      → Reaches start (happens e s)

reached-is_tidy : (start s : Dialogs) → is_tidy start ≡ true → Reaches start s → is_tidy s ≡ true
reached-is_tidy start s h at_once = h
reached-is_tidy start s h (and_then {s = t} r e k l) =
    happens-is_tidy e t (reached-is_tidy start t h r) k ∙ l

-- A page that was tidy at the start stays so as long as no answer is late: at most one dialog is
-- open, a dialog that is open has the user, the entry or the device that it is about, and the
-- question whether to close is asked over the edit form only. Whatever can happen next leaves the
-- page tidy exactly if it is no late answer: the answer to a rejection while an edit form is open,
-- or the answer to an edit while the question whether to close is asked or a rejection is open.
pub Reaches-is_tidy :
    (start s : Dialogs) (e : PageEvent)
    → is_tidy start ≡ true
    → Reaches start s
    → can_happen e s ≡ true
    → (is_tidy s ≡ true) × (is_tidy (happens e s) ≡ in_time e s)
Reaches-is_tidy start s e h r k =
    let tidy = reached-is_tidy start s h r in (tidy, happens-is_tidy e s tidy k)
