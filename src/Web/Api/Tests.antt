-- ===== src/Web/Api/Tests.antt =====
-- The gate is opened under a token that has expired (frontend/src/lib/api.ts).
use parking_gate_remote.Common.{
  ℕ, zero, suc, String, ◌≡◌, refl, true, false, Option, none, some, [], ◌∷◌, map,
}
use parking_gate_remote.Common.Assoc.{lookup, insert, string_eq}
use parking_gate_remote.Common.Json.{Json, text, object, end, member}
use parking_gate_remote.Web.Api.{
  Sent, Response, no_json, json, ApiOptions, done, Browser, first_request, api_request,
  refresh_access_token,
}
use parking_gate_remote.Web.Api.Exchange.{Exchanged, api_request-Exchanged}

abbrev plain : Json → String
plain (text s) = s
plain _ = "?"

-- The other side counts the requests: the first is refused, then a token is given, then all is well.
abbrev reply : ℕ → Response
reply zero = record { status = 401; status_text = ""; content = no_json }
reply (suc zero) = record {
  status = 200;
  status_text = "";
  content = json (object (member "tokens" (object (member "accessToken" (text "new") end)) end));
}
reply (suc (suc n)) = record { status = 200; status_text = ""; content = json (object end) }

abbrev fetch : Sent → ℕ → Option Response × ℕ
fetch q n = (some (reply n), suc n)

abbrev press : ApiOptions
press = record { method = "POST"; body = none; headers = []; auth = true; is_refresh_call = false }

abbrev browser : Browser ℕ
browser = record { access_token = some "old"; sent = []; server = 0 }

same_id :
    map
      (λ q. lookup "X-Request-Id" q.headers)
      (api_request fetch "b" plain "r1" "/gate/open" press browser).1.sent
    ≡ some "r1" ∷ none ∷ some "r1" ∷ []
unfolding api_request refresh_access_token lookup insert
same_id = refl

ends_well : (api_request fetch "b" plain "r1" "/gate/open" press browser).0 ≡ done (object end)
unfolding api_request refresh_access_token
ends_well = refl

api_request-Exchanged_example :
    Exchanged fetch "b" plain
      (first_request "b" "r1" "/gate/open" press (some "old"))
      press
      (some (reply 0))
      []
      (api_request fetch "b" plain "r1" "/gate/open" press browser).1.sent
api_request-Exchanged_example =
    api_request-Exchanged fetch "b" plain "r1" "/gate/open" press browser
