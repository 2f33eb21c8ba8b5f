-- ===== src/Device/Ota.antt =====
-- The manifest of the firmware's updates: `getOtaManifest` and `getOta` of
-- backend/src/device/device-commands.service.ts, with the route of device.controller.ts. A manifest
-- that is a list or a text has no entries.
use parking_gate_remote.Common.{String, Option, none, text_or, if◌then◌else◌}
use parking_gate_remote.Common.Http.{Thrown, http, bad_request, Result, ok, err}
use parking_gate_remote.Common.Json.{Json, field, truth, is_null}
use parking_gate_remote.Device.{Tokens, assert_device_auth}

-- The variable OTA_MANIFEST_JSON: missing or empty, no JSON text, or JSON.
pub data Manifest : Type 0 where
  no_manifest broken : Manifest
  manifest : Json → Manifest

abbrev not_json : Thrown
not_json = http bad_request "OTA_MANIFEST_JSON is not valid JSON"

-- `v ?? null`, and then `null` for all that counts as false
abbrev present_value : Option Json → Option Json
present_value v = if truth v then v else none

pub get_ota : Manifest → String → Result (Option Json)
get_ota no_manifest device_id = ok none
get_ota broken device_id = err not_json
get_ota (manifest j) device_id =
    if is_null j then err not_json else ok (present_value (field device_id j))

abbrev after_auth : Manifest → String → Result (Unit {0}) → Result (Option Json)
after_auth m device_id (ok u) = get_ota m device_id
after_auth m device_id (err e) = err e

-- `getOtaManifest` of the controller
pub get_ota_manifest :
    (String → String)
    → Tokens
    → Manifest
    → Option String
    → Option String
    → Option String
    → Result (Option Json)
get_ota_manifest trim ts m id_header token_header id_query =
    let device_id = trim (text_or id_header (text_or id_query "")) in
    after_auth m device_id (assert_device_auth ts device_id (trim (text_or token_header "")))
