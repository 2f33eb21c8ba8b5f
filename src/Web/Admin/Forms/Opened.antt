-- ===== src/Web/Admin/Forms/Opened.antt =====
-- The edit form as it is opened (openEditModal, editFormHasChanges and handleEditUser of
-- frontend/src/app/admin/AdminPageContent.tsx).
use parking_gate_remote.Common.{
  String, ℤ, ◌≡◌, refl, sym, ap, ◌∙◌, true, false, none, some, [], ◌∷◌, ◌==◌, ◌&&◌, ◌||◌,
  if◌then◌else◌, arith, eq_refl, text_or, every, All,
}
use parking_gate_remote.Common.Text.{codes, is_digit}
use parking_gate_remote.Users.Schema.{
  Status, pending, approved, rejected, archived, Role, user, admin,
}
use parking_gate_remote.Admin.{UpdateUserDto, is_rejected}
use parking_gate_remote.Admin.Listing.{UserItem, same_status}
use parking_gate_remote.Web.Phone.{
  Phone, includes, without_separators, parse_phone, validate_phone_number,
}
use parking_gate_remote.Web.Phone.Parts.{join, israel_phone_prefixes, parse_phone-join, any-All}
use parking_gate_remote.Web.Numerals.{parse_int, number_text, parse_int-number_text}
use parking_gate_remote.Web.Trim.{trim}
use parking_gate_remote.Web.Admin.Forms.{
  EditForm, patch_user, patch_role, asks, edit_body, role_request, edit_requests, edit_numbers,
  handle_edit_user, same_role, opened_form, has_changes,
}
use Prim.Native.String
use Prim.Native.String.{count}

abbrev AllDigits : String → Type 0
AllDigits s = every is_digit (codes s) ≡ true

without_separators-digits : (s : String) → AllDigits s → without_separators s ≡ s
without_separators-digits Prim.Native.String.[] h = refl
without_separators-digits (Prim.Native.String.◌∷◌ c s) h =
    ground (arith, without_separators-digits s)

join-AllDigits : (p n : String) → AllDigits p → AllDigits n → AllDigits (join p n)
join-AllDigits Prim.Native.String.[] n h k = k
join-AllDigits (Prim.Native.String.◌∷◌ c p) n h k = ground (arith, h, join-AllDigits p n)

prefixes-AllDigits : All AllDigits israel_phone_prefixes
prefixes-AllDigits = (
  refl,
  (
    refl,
    (refl, (refl, (refl, (refl, (refl, (refl, (refl, (refl, (refl, (refl, (refl, tt))))))))))),
  ),
)

same_role_refl : (r : Role) → same_role r r ≡ true
same_role_refl user = refl
same_role_refl admin = refl

same_status_refl : (s : Status) → same_status s s ≡ true
same_status_refl pending = refl
same_status_refl approved = refl
same_status_refl rejected = refl
same_status_refl archived = refl

has_changes-opened : (u : UserItem) → has_changes u (opened_form u) ≡ false
unfolding has_changes opened_form
has_changes-opened u = ground (
  arith,
  eq_refl u.first_name,
  eq_refl u.last_name,
  eq_refl (join (parse_phone u.phone).prefix (parse_phone u.phone).number),
  eq_refl (number_text u.apartment_number),
  eq_refl (number_text u.floor),
  eq_refl (text_or u.rejection_reason ""),
  same_role_refl u.role,
  same_status_refl u.status,
)

-- The body that names the user's own fields.
abbrev pub as_it_is : UserItem → UpdateUserDto
as_it_is u = record {
  first_name = some u.first_name;
  last_name = some u.last_name;
  phone = some u.phone;
  apartment_number = some u.apartment_number;
  floor = some u.floor;
  status = some u.status;
  rejection_reason =
      some (if is_rejected u.status then some (trim (text_or u.rejection_reason "")) else none);
}

edit_requests_fine :
    (u : UserItem) (form : EditForm) (a f : ℤ)
    → (form.phone_prefix == "" || form.phone_number == "") ≡ false
    → validate_phone_number form.phone_prefix form.phone_number ≡ true
    → (is_rejected form.status && trim form.rejection_reason == "") ≡ false
    → edit_requests u form a f ≡ asks (patch_user u.id (edit_body form a f) ∷ role_request u form)
edit_requests_fine u form a f h k l = rw (h, k, l)

valid-given : (p n : String) → validate_phone_number p n ≡ true → (p == "" || n == "") ≡ false
unfolding validate_phone_number
valid-given p n h = ground (arith, h)

-- A form as it is opened for a user has no changes. If the user's number is a prefix that the forms
-- offer and seven digits, and a user who is rejected has a reason that is not blank, then saving the
-- form makes one request, and that names the user's own names, number, apartment, floor and status
-- and the reason without the spaces around it.
pub opened_form-handle_edit_user :
    (u : UserItem) (p n : String)
    → includes israel_phone_prefixes p ≡ true
    → every is_digit (codes n) ≡ true
    → count n ≡ 7
    → u.phone ≡ join p n
    → (is_rejected u.status && trim (text_or u.rejection_reason "") == "") ≡ false
    → (has_changes u (opened_form u) ≡ false)
      × (handle_edit_user (some u) (opened_form u) ≡ asks (patch_user u.id (as_it_is u) ∷ []))
unfolding handle_edit_user opened_form
opened_form-handle_edit_user u p n known ds seven phone reason =
    let (parsed, valid) = parse_phone-join p n u.phone known ds (
      ap without_separators phone
      ∙ without_separators-digits (join p n) (
          join-AllDigits p n (any-All AllDigits israel_phone_prefixes p prefixes-AllDigits known)
            ds)) in
    let whole = ap (λ (q : Phone). join q.prefix q.number) parsed ∙ sym phone in
    let fine : validate_phone_number (parse_phone u.phone).prefix (parse_phone u.phone).number
        ≡ true =
      ap (λ (q : Phone). validate_phone_number q.prefix q.number) parsed
      ∙ valid
      ∙ ground (arith, seven) in
    (
      has_changes-opened u,
      ap (λ x. edit_numbers u (opened_form u) x (parse_int (number_text u.floor)))
            (parse_int-number_text u.apartment_number)
          ∙ ap (λ x. edit_numbers u (opened_form u) (some u.apartment_number) x)
              (parse_int-number_text u.floor)
          ∙ edit_requests_fine u (opened_form u) u.apartment_number u.floor
              (valid-given (parse_phone u.phone).prefix (parse_phone u.phone).number fine) fine
              reason
          ∙ ap
              (λ t. asks (
                patch_user u.id (record (as_it_is u) { phone = some t })
                ∷ role_request u (opened_form u)))
              whole
          ∙ ap
              (λ b.
                asks
                  (patch_user u.id (as_it_is u) ∷ (if b then [] else patch_role u.id u.role ∷ [])))
              (same_role_refl u.role),
    )
