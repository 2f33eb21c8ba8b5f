-- ===== src/Web/Admin/Dialogs/Unsaved.antt =====
-- Edits that are not saved, and the key Escape (frontend/src/app/admin/AdminPageContent.tsx).
use parking_gate_remote.Common.{
  ◌≡◌, refl, Bool, true, false, not, Option, none, ◌&&◌, ◌||◌, arith, Bool-cases, inl, inr, ap, ◌∙◌,
  sym,
}
use parking_gate_remote.Admin.Listing.{UserItem}
use parking_gate_remote.Web.Admin.Forms.{EditForm}
use parking_gate_remote.Web.Admin.Dialogs.{
  Dialogs, PageEvent, happens, escape, edit_form_has_changes, reject_clicked, edit_clicked,
  delete_clicked, approve_all_clicked, log_clicked, diagnostics_clicked, typed_reason, typed_form,
  typed_password, reset_clicked, reset_given_up, escape_pressed, reject_given_up,
  approve_all_closed, delete_given_up, edit_closed, close_confirmed, close_given_up, log_closed,
  diagnostics_closed, rejected_answer, deleted_answer, edited_answer, password_answer,
  diagnostics_answer, diagnostics_error_answer,
}
use parking_gate_remote.Web.Admin.Dialogs.Tidy.{is_tidy, can_happen, nothing_open, escape-is_tidy}

-- Whether Escape asks before it closes the edit form.
abbrev pub asks_first : Dialogs → Bool
asks_first s = s.edit_open && (edit_form_has_changes s || s.resetting) && not s.confirm_close

escape-asks_first :
    (s : Dialogs)
    → is_tidy s ≡ true
    → asks_first s ≡ true
    → escape s ≡ record s { confirm_close = true }
unfolding escape
escape-asks_first s h k = ground (arith, h, k)

escape-nothing_open :
    (s : Dialogs) → is_tidy s ≡ true → asks_first s ≡ false → nothing_open (escape s) ≡ true
unfolding escape
escape-nothing_open s h k = ground (arith, h, k)

escape-idle : (s : Dialogs) → nothing_open s ≡ true → escape s ≡ s
unfolding escape
escape-idle s h = ground (arith, h)

-- On a page that is tidy, Escape closes whatever dialog is open, unless that is the edit form with
-- changes or an open password form and the question whether to close has not been asked; then
-- Escape asks it. Pressed twice, Escape leaves no dialog open.
pub escape_twice :
    (s : Dialogs)
    → is_tidy s ≡ true
    → (nothing_open (escape s) ≡ not (asks_first s)) × (nothing_open (escape (escape s)) ≡ true)
escape_twice s h = elim (Bool-cases (asks_first s)) [
  | inl y ↦
      let asked = escape-asks_first s h y in
      (
        ap nothing_open asked ∙ ground (arith, y) ∙ sym (ap not y),
        escape-nothing_open (escape s) (escape-is_tidy s h) (ap asks_first asked ∙ ground arith),
      )
  | inr n ↦
      let closed = escape-nothing_open s h n in
      (closed ∙ sym (ap not n), ap nothing_open (escape-idle (escape s) closed) ∙ closed)
]

-- What an event makes of the form, as far as typing goes.
abbrev pub typed : PageEvent → EditForm → EditForm
typed (typed_form f) g = f
typed _ g = g

abbrev pub is_saved : PageEvent → Bool
is_saved edited_answer = true
is_saved _ = false

-- Whom an event leaves selected: the answer to an edit or to a rejection leaves no one.
abbrev pub left_selected : PageEvent → Option UserItem → Option UserItem
left_selected edited_answer u = none
left_selected rejected_answer u = none
left_selected _ u = u

-- Whether the edit form is open, for which user and with which text.
abbrev pub Editing : Bool → Option UserItem → EditForm → Dialogs → Type 0
Editing b u f s = (s.edit_open ≡ b) × (s.selected ≡ u) × (s.form ≡ f)

-- While the edit form is open on a tidy page with changes, and the question whether to close is not
-- on the screen: only the answer to an edit, for whichever user that was, closes the form; that
-- answer and the one to a rejection leave no user selected, and nothing else changes the user; and
-- only typing changes what the form says.
pub happens-Editing :
    (e : PageEvent) (s : Dialogs)
    → is_tidy s ≡ true
    → can_happen e s ≡ true
    → s.edit_open ≡ true
    → edit_form_has_changes s ≡ true
    → s.confirm_close ≡ false
    → Editing (not (is_saved e)) (left_selected e s.selected) (typed e s.form) (happens e s)
unfolding happens escape
happens-Editing (reject_clicked u) s h k o c n = ground (arith, k, o)
happens-Editing (edit_clicked u) s h k o c n = ground (arith, k, o)
happens-Editing (delete_clicked u) s h k o c n = ground (arith, k, o)
happens-Editing approve_all_clicked s h k o c n = ground (arith, k, o)
happens-Editing (log_clicked l) s h k o c n = ground (arith, k, o)
happens-Editing (diagnostics_clicked d) s h k o c n = ground (arith, k, o)
happens-Editing (typed_reason t) s h k o c n = (o, refl, refl)
happens-Editing (typed_form f) s h k o c n = (o, refl, refl)
happens-Editing (typed_password p) s h k o c n = (o, refl, refl)
happens-Editing reset_clicked s h k o c n = (o, refl, refl)
happens-Editing reset_given_up s h k o c n = (o, refl, refl)
happens-Editing escape_pressed s h k o c n = ground (arith, h, o, c, n)
happens-Editing reject_given_up s h k o c n = ground (arith, h, k, o)
happens-Editing approve_all_closed s h k o c n = (o, refl, refl)
happens-Editing delete_given_up s h k o c n = (o, refl, refl)
happens-Editing edit_closed s h k o c n = ground (arith, c)
happens-Editing close_confirmed s h k o c n = ground (arith, k, n)
happens-Editing close_given_up s h k o c n = (o, refl, refl)
happens-Editing log_closed s h k o c n = (o, refl, refl)
happens-Editing diagnostics_closed s h k o c n = (o, refl, refl)
happens-Editing rejected_answer s h k o c n = (o, refl, refl)
happens-Editing deleted_answer s h k o c n = (o, refl, refl)
happens-Editing edited_answer s h k o c n = (refl, refl, refl)
happens-Editing password_answer s h k o c n = (o, refl, refl)
happens-Editing (diagnostics_answer ls) s h k o c n = (o, refl, refl)
happens-Editing (diagnostics_error_answer t) s h k o c n = (o, refl, refl)
