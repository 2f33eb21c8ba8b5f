-- ===== src/Admin/Listing.antt =====
-- The lists that an admin is shown: getUsers with dto/get-users-query.dto.ts, and
-- getDeviceStatuses, of backend/src/admin/admin.service.ts. Whether a text meets a regular
-- expression is MongoDB's to say, and so is the order that it sorts by keys in at each read: parameters. A time
-- is a number of milliseconds, and the time of a user's last change, which mongoose keeps, is a
-- parameter too.
pub mod Cover
pub mod Disconnect
mod Tests
use parking_gate_remote.Common.{
  ℕ, ◌-◌, ◌*◌, String, ℤ, Bool, true, false, Option, none, some, List, [], ◌∷◌, map, ◌==◌, ◌&&◌,
  ◌||◌, truthy, text_or, is_text, if◌then◌else◌, length, drop, any,
}
use parking_gate_remote.Common.Pages.{limited, page_count}
use parking_gate_remote.Mongo.{Mongo}
use parking_gate_remote.Users.{Db, get_all_sessions}
use parking_gate_remote.Users.Schema.{
  Status, pending, approved, rejected, archived, Role, User, Session,
}
use parking_gate_remote.Gate.Messages.{DeviceStatus}

pub data StatusFilter : Type 0 where
  only : Status → StatusFilter
  all_statuses : StatusFilter

pub data SortField : Type 0 where
  name apartment_number created_at approval_date : SortField

pub data SortOrder : Type 0 where
  asc desc : SortOrder

-- A key that documents are sorted by.
pub data SortKey : Type 0 where
  by_last_name by_first_name by_apartment by_created by_approved by_rejected : SortKey

-- The query, with the defaults of `getUsers` filled in.
pub record UsersQuery : Type 0 where
  pub status : StatusFilter
  pub q : Option String
  pub page : ℕ
  pub limit : ℕ
  pub sort_field : SortField
  pub sort_order : SortOrder

pub record ActiveDevice : Type 0 where
  pub device_id : String
  pub session_id : String
  pub last_active_at : ℕ

pub record UserItem : Type 0 where
  pub id : String
  pub email : String
  pub role : Role
  pub status : Status
  pub rejection_reason : Option String
  pub first_name : String
  pub last_name : String
  pub phone : String
  pub apartment_number : ℤ
  pub floor : ℤ
  pub active_device_id : Option String
  pub active_devices : List ActiveDevice
  pub approved_at : Option ℕ
  pub rejected_at : Option ℕ
  pub approval_email_sent_at : Option ℕ
  pub created_at : ℕ
  pub updated_at : ℕ

pub record UsersPage : Type 0 where
  pub items : List UserItem
  pub page : ℕ
  pub limit : ℕ
  pub total : ℕ
  pub total_pages : ℕ

abbrev pub same_status : Status → Status → Bool
same_status pending pending = true
same_status approved approved = true
same_status rejected rejected = true
same_status archived archived = true
same_status _ _ = false

abbrev status_passes : StatusFilter → Status → Bool
status_passes all_statuses s = true
status_passes (only t) s = same_status t s

-- `$or` over the four fields
abbrev search_passes : (String → String → Bool) → String → User → Bool
search_passes matches q u =
    matches q u.email || matches q u.phone || matches q u.first_name || matches q u.last_name

-- the filter that is built
abbrev pub users_filter : (String → String → Bool) → UsersQuery → User → Bool
users_filter matches query u =
    (if truthy query.q then search_passes matches (text_or query.q "") u else true)
    && status_passes query.status u.status

-- the keys to sort by; the direction is the same for each
abbrev pub sort_keys : SortField → List SortKey
sort_keys name = by_last_name ∷ by_first_name ∷ []
sort_keys apartment_number = by_apartment ∷ []
sort_keys created_at = by_created ∷ []
sort_keys approval_date = by_approved ∷ by_rejected ∷ []

abbrev pub device_of : Session → ActiveDevice
device_of s = record {
  device_id = s.device_id;
  session_id = s.session_id;
  last_active_at = s.last_active_at;
}

-- the entry of a user who logged in before there were sessions
abbrev legacy_device : (User → ℕ) → User → ActiveDevice
legacy_device updated_at u = record {
  device_id = text_or u.active_device_id "";
  session_id = text_or u.active_session_id "legacy";
  last_active_at = updated_at u;
}

-- `activeDevices`
abbrev pub devices_of : (User → ℕ) → User → List Session → List ActiveDevice
devices_of updated_at u [] =
    if truthy u.active_device_id then legacy_device updated_at u ∷ [] else []
devices_of updated_at u (s ∷ ss) = map device_of (s ∷ ss)

-- `text || null`
abbrev or_null : Option String → Option String
or_null t = if truthy t then t else none

abbrev pub user_item : (User → ℕ) → User → List Session → UserItem
user_item updated_at u sessions = record {
  id = u.id;
  email = u.email;
  role = u.role;
  status = u.status;
  rejection_reason = or_null u.rejection_reason;
  first_name = u.first_name;
  last_name = u.last_name;
  phone = u.phone;
  apartment_number = u.apartment_number;
  floor = u.floor;
  active_device_id = or_null u.active_device_id;
  active_devices = devices_of updated_at u sessions;
  approved_at = u.approved_at;
  rejected_at = u.rejected_at;
  approval_email_sent_at = u.approval_email_sent_at;
  created_at = u.created_at;
  updated_at = updated_at u;
}

-- What MongoDB gives for `find(filter).sort(keys)`, by the read: documents whose keys are the same
-- may come in another order at another read.
abbrev pub Sorted : Type 0
Sorted = ℕ → List SortKey → SortOrder → (User → Bool) → List User → List User

-- `findUsersPaginated`
abbrev pub find_users_paginated :
    Sorted → ℕ → (User → Bool) → ℕ → ℕ → List SortKey → SortOrder → Db → List User
find_users_paginated sorted read filter skip limit keys order db =
    limited limit (drop skip (sorted read keys order filter db.users))

module _ (mongo : Mongo) (sorted : Sorted) (matches : String → String → Bool)
    (updated_at : User → ℕ) where
  -- an item with the sessions that the user has at the time
  abbrev pub listed : Db → User → UserItem
  listed db u = user_item updated_at u (get_all_sessions mongo u.id db)

  -- the answer, with the number of the read that it makes
  pub get_users : ℕ → UsersQuery → Db → UsersPage
  get_users read query db =
      let total = length (mongo.find User (users_filter matches query) db.users) in
      record {
        items = map (listed db) (
            find_users_paginated sorted read (users_filter matches query)
              ((query.page - 1) * query.limit) query.limit (sort_keys query.sort_field)
              query.sort_order db);
        page = query.page;
        limit = query.limit;
        total = total;
        total_pages = page_count total query.limit;
      }

-- `getDeviceStatuses`, as far as a status is modelled: the one seen last comes first.
pub get_device_statuses : Mongo → List DeviceStatus → List DeviceStatus
get_device_statuses mongo statuses =
    mongo.find_sorted DeviceStatus (λ s. true) (λ s. s.last_seen_at) statuses
