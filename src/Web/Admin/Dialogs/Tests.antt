-- ===== src/Web/Admin/Dialogs/Tests.antt =====
-- An edit form with a change, and answers that come late
-- (frontend/src/app/admin/AdminPageContent.tsx).
use parking_gate_remote.Common.{◌≡◌, refl, true, false, not, none, some, List, [], ◌∷◌, pos}
use parking_gate_remote.Gate.Messages.{DeviceDiagnosticLog}
use parking_gate_remote.Users.{new_user}
use parking_gate_remote.Users.Schema.{User, approved}
use parking_gate_remote.Admin.Listing.{UserItem}
use parking_gate_remote.Admin.Listing.{user_item}
use parking_gate_remote.Web.Admin.Forms.{EditForm, no_password, has_changes}
use parking_gate_remote.Web.Admin.Dialogs.{
  Dialogs, PageEvent, happens, escape, edit_form_has_changes, edit_clicked, reject_clicked,
  typed_form, escape_pressed, diagnostics_clicked, diagnostics_closed, diagnostics_answer,
  rejected_answer, edited_answer,
}
use parking_gate_remote.Web.Admin.Dialogs.Tidy.{
  is_tidy, nothing_open, Reaches, at_once, and_then, Reaches-is_tidy,
}
use parking_gate_remote.Web.Admin.Dialogs.Unsaved.{
  asks_first, Editing, escape_twice, happens-Editing,
}

abbrev tenant : User
tenant = new_user "u1" 3 (record {
  email = "dana@x.org";
  password_hash = "h";
  first_name = "Dana";
  last_name = "Bar";
  phone = "0501234567";
  apartment_number = pos 4;
  floor = pos 2;
  status = some approved;
  rejection_reason = none;
})

abbrev dana : UserItem
dana = user_item (λ u. 9) tenant []

abbrev noa : UserItem
noa = user_item (λ u. 9) (record tenant { id = "u2"; email = "noa@x.org" }) []

-- The events one after the other, the first one first.
abbrev session : List PageEvent → Dialogs → Dialogs
session [] s = s
session (e ∷ es) s = session es (happens e s)

abbrev blank_form : EditForm
blank_form = record {
  first_name = "";
  last_name = "";
  phone_prefix = "";
  phone_number = "";
  apartment_number = "";
  floor = "";
  status = approved;
  rejection_reason = "";
  role = dana.role;
}

abbrev at_rest : Dialogs
at_rest = record {
  reject_open = false;
  approve_all_open = false;
  delete_open = false;
  edit_open = false;
  log_open = false;
  diagnostics_open = false;
  confirm_close = false;
  selected = none;
  user_to_delete = none;
  rejection_reason = "";
  form = blank_form;
  password = no_password;
  resetting = false;
  selected_log = none;
  diagnostics_device = none;
  diagnostics_data = none;
  diagnostics_loading = false;
  diagnostics_error = none;
}

-- Dana's form with another first name.
abbrev editing : Dialogs
editing = record at_rest {
  edit_open = true;
  selected = some dana;
  form = record blank_form { first_name = "Daniela" };
}

changed : edit_form_has_changes editing ≡ true
unfolding has_changes
changed = refl

escape_twice_example :
    (nothing_open (escape editing) ≡ not (asks_first editing))
    × (nothing_open (escape (escape editing)) ≡ true)
escape_twice_example = escape_twice editing refl

happens-Editing_example :
    Editing true
      (some dana)
      (record blank_form { first_name = "Daniela" })
      (happens escape_pressed editing)
happens-Editing_example = happens-Editing escape_pressed editing refl refl refl changed refl

abbrev opened : Reaches at_rest (happens (edit_clicked dana) at_rest)
opened = and_then at_once (edit_clicked dana) refl refl

-- The answer to an earlier rejection comes while Dana's form is open.
Reaches-is_tidy_example :
    (is_tidy (happens (edit_clicked dana) at_rest) ≡ true)
    × (is_tidy (happens rejected_answer (happens (edit_clicked dana) at_rest)) ≡ false)
unfolding happens
Reaches-is_tidy_example =
    Reaches-is_tidy at_rest (happens (edit_clicked dana) at_rest) rejected_answer refl opened refl

-- An answer to an edit of Dana that comes while Noa is edited closes Noa's form.
closes_another :
    (session
      (edit_clicked dana ∷ escape_pressed ∷ edit_clicked noa ∷ edited_answer ∷ [])
      at_rest).edit_open
    ≡ false
unfolding happens
closes_another = refl

-- An answer to a rejection that was left by Escape takes the user from an edit form that is open.
abbrev hidden : Dialogs
hidden =
    session (reject_clicked dana ∷ escape_pressed ∷ edit_clicked noa ∷ rejected_answer ∷ []) at_rest

hides_another : (hidden.edit_open ≡ true) × (hidden.selected ≡ none)
unfolding happens escape
hides_another = (refl, refl)

-- The question whether to close stays on the screen when the form is closed by an answer.
abbrev left_over : Dialogs
left_over =
    session (edit_clicked dana ∷ typed_form blank_form ∷ escape_pressed ∷ edited_answer ∷ [])
      at_rest

stays : (left_over.edit_open ≡ false) × (left_over.confirm_close ≡ true)
unfolding happens escape has_changes
stays = (refl, refl)

-- The diagnostics of one device are shown under the name of another one.
abbrev mixed : List DeviceDiagnosticLog → Dialogs
mixed ls =
    session
      (diagnostics_clicked "A"
        ∷ diagnostics_closed
        ∷ diagnostics_clicked "B"
        ∷ diagnostics_answer ls
        ∷ [])
      at_rest

shown_under_another :
    (ls : List DeviceDiagnosticLog)
    → ((mixed ls).diagnostics_device ≡ some "B") × ((mixed ls).diagnostics_data ≡ some ls)
unfolding happens
shown_under_another ls = (refl, refl)
