-- ===== src/Web/Admin/Dialogs.antt =====
-- The dialogs of the admin's page and the key Escape: the state and the handlers of
-- frontend/src/app/admin/AdminPageContent.tsx that open, close and fill them. An answer of the
-- server is an event of its own, since it may come after other events; that a request fails
-- leaves the dialogs as they are, but for the diagnostics.
pub mod Tidy
pub mod Unsaved
mod Tests
use parking_gate_remote.Common.{
  ℕ, String, Bool, true, false, not, Option, none, some, List, [], ◌∷◌, ◌&&◌, ◌||◌, if◌then◌else◌,
}
use parking_gate_remote.Admin.Listing.{UserItem}
use parking_gate_remote.Gate.Pages.{LogItem}
use parking_gate_remote.Gate.Messages.{DeviceDiagnosticLog}
use parking_gate_remote.Web.Admin.Forms.{
  EditForm, PasswordForm, no_password, opened_form, has_changes,
}

pub record Dialogs : Type 0 where
  pub reject_open : Bool
  pub approve_all_open : Bool
  pub delete_open : Bool
  pub edit_open : Bool
  pub log_open : Bool
  pub diagnostics_open : Bool
  pub confirm_close : Bool
  pub selected : Option UserItem
  pub user_to_delete : Option UserItem
  pub rejection_reason : String
  pub form : EditForm
  pub password : PasswordForm
  pub resetting : Bool
  pub selected_log : Option LogItem
  pub diagnostics_device : Option String
  pub diagnostics_data : Option (List DeviceDiagnosticLog)
  pub diagnostics_loading : Bool
  pub diagnostics_error : Option String

-- `editFormHasChanges`
abbrev pub edit_form_has_changes : Dialogs → Bool
edit_form_has_changes s = elim s.selected [ none ↦ false | some u ↦ has_changes u s.form ]

abbrev pub open_reject : UserItem → Dialogs → Dialogs
open_reject u s = record s { selected = some u; rejection_reason = ""; reject_open = true }

abbrev pub open_edit : UserItem → Dialogs → Dialogs
open_edit u s = record s {
  selected = some u;
  form = opened_form u;
  password = no_password;
  resetting = false;
  edit_open = true;
  confirm_close = false;
}

abbrev pub open_delete : UserItem → Dialogs → Dialogs
open_delete u s = record s { user_to_delete = some u; delete_open = true }

abbrev pub open_log : LogItem → Dialogs → Dialogs
open_log l s = record s { selected_log = some l; log_open = true }

-- `openDiagnostics`, up to the answer
abbrev pub open_diagnostics : String → Dialogs → Dialogs
open_diagnostics d s = record s {
  diagnostics_device = some d;
  diagnostics_open = true;
  diagnostics_data = none;
  diagnostics_error = none;
  diagnostics_loading = true;
}

-- the answer to the request of `openDiagnostics`, whichever device it was for
abbrev pub diagnostics_answered : List DeviceDiagnosticLog → Dialogs → Dialogs
diagnostics_answered ls s = record s {
  diagnostics_data = some ls;
  diagnostics_error = none;
  diagnostics_loading = false;
}

abbrev pub diagnostics_failed : String → Dialogs → Dialogs
diagnostics_failed m s = record s {
  diagnostics_data = none;
  diagnostics_error = some m;
  diagnostics_loading = false;
}

abbrev pub close_diagnostics : Dialogs → Dialogs
close_diagnostics s = record s {
  diagnostics_open = false;
  diagnostics_device = none;
  diagnostics_data = none;
  diagnostics_error = none;
}

-- the button that gives up a rejection, and what an answer to it does
abbrev pub reject_done : Dialogs → Dialogs
reject_done s = record s { reject_open = false; selected = none; rejection_reason = "" }

abbrev pub delete_done : Dialogs → Dialogs
delete_done s = record s { delete_open = false; user_to_delete = none }

-- what an answer to an edit does
abbrev pub edit_saved : Dialogs → Dialogs
edit_saved s = record s { edit_open = false; selected = none }

abbrev pub confirm_close_edit : Dialogs → Dialogs
confirm_close_edit s = record s { edit_open = false; selected = none; confirm_close = false }

-- `closeEditModal`
abbrev pub close_edit : Dialogs → Dialogs
close_edit s =
    if edit_form_has_changes s then record s { confirm_close = true } else confirm_close_edit s

abbrev pub close_log : Dialogs → Dialogs
close_log s = record s { log_open = false; selected_log = none }

abbrev pub escape_edit : Dialogs → Dialogs
escape_edit s =
    if (edit_form_has_changes s || s.resetting) && not s.confirm_close
    then record s { confirm_close = true }
    else record (confirm_close_edit s) { password = no_password; resetting = false }

-- `handleEscapeKey`; with no dialog open there is no listener, and nothing is done.
unfoldable pub escape : Dialogs → Dialogs
escape s =
    if s.reject_open
    then record s { reject_open = false; rejection_reason = "" }
    else if s.approve_all_open
    then record s { approve_all_open = false }
    else if s.delete_open
    then delete_done s
    else if s.edit_open
    then escape_edit s
    else if s.log_open
    then close_log s
    else if s.diagnostics_open
    then close_diagnostics s
    else s

-- What happens on the page.
pub data PageEvent : Type 0 where
  reject_clicked : UserItem → PageEvent
  edit_clicked : UserItem → PageEvent
  delete_clicked : UserItem → PageEvent
  approve_all_clicked : PageEvent
  log_clicked : LogItem → PageEvent
  diagnostics_clicked : String → PageEvent
  typed_reason : String → PageEvent
  typed_form : EditForm → PageEvent
  typed_password : PasswordForm → PageEvent
  reset_clicked : PageEvent
  reset_given_up : PageEvent
  escape_pressed : PageEvent
  reject_given_up : PageEvent
  approve_all_closed : PageEvent
  delete_given_up : PageEvent
  edit_closed : PageEvent
  close_confirmed : PageEvent
  close_given_up : PageEvent
  log_closed : PageEvent
  diagnostics_closed : PageEvent
  rejected_answer : PageEvent
  deleted_answer : PageEvent
  edited_answer : PageEvent
  password_answer : PageEvent
  diagnostics_answer : List DeviceDiagnosticLog → PageEvent
  diagnostics_error_answer : String → PageEvent

unfoldable pub happens : PageEvent → Dialogs → Dialogs
happens (reject_clicked u) s = open_reject u s
happens (edit_clicked u) s = open_edit u s
happens (delete_clicked u) s = open_delete u s
happens approve_all_clicked s = record s { approve_all_open = true }
happens (log_clicked l) s = open_log l s
happens (diagnostics_clicked d) s = open_diagnostics d s
happens (typed_reason t) s = record s { rejection_reason = t }
happens (typed_form f) s = record s { form = f }
happens (typed_password p) s = record s { password = p }
happens reset_clicked s = record s { resetting = true; password = no_password }
happens reset_given_up s = record s { resetting = false; password = no_password }
happens escape_pressed s = escape s
happens reject_given_up s = reject_done s
happens approve_all_closed s = record s { approve_all_open = false }
happens delete_given_up s = delete_done s
happens edit_closed s = close_edit s
happens close_confirmed s = confirm_close_edit s
happens close_given_up s = record s { confirm_close = false }
happens log_closed s = close_log s
happens diagnostics_closed s = close_diagnostics s
happens rejected_answer s = reject_done s
happens deleted_answer s = delete_done s
happens edited_answer s = edit_saved s
happens password_answer s = record s { password = no_password; resetting = false }
happens (diagnostics_answer ls) s = diagnostics_answered ls s
happens (diagnostics_error_answer m) s = diagnostics_failed m s
