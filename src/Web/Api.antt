-- ===== src/Web/Api.antt =====
-- The calls of the server: frontend/src/lib/api.ts, for one call at a time, so that no refresh is
-- under way when one starts. What the network answers, the new request id are
-- parameters, and so is what `join_messages` makes of an element. A token of a refresh that is no text is
-- not modelled.
pub mod Exchange
mod Tests
use parking_gate_remote.Common.{
  ℕ, zero, suc, String, Bool, true, false, not, Option, none, some, List, [], ◌∷◌, ◌++◌, ◌==◌, ◌&&◌,
  ◌||◌, if◌then◌else◌, truthy, or_else, eqb, leb,
}
use parking_gate_remote.Common.Assoc.{lookup, insert, string_eq}
use parking_gate_remote.Common.Json.{Json, null, text, array, object, elements, field, text_of}
use parking_gate_remote.Common.Text.{codes, starts_with}
use Prim.Native.String

pub record Sent : Type 0 where
  pub url : String
  pub method : String
  pub headers : List (String × String)
  pub body : Option Json

-- What the answer carries: no JSON by its content type, JSON, or what does not parse.
pub data Content : Type 0 where
  no_json : Content
  json : Json → Content
  malformed : Content

pub record Response : Type 0 where
  pub status : ℕ
  pub status_text : String
  pub content : Content

pub record ApiOptions : Type 0 where
  pub method : String
  pub body : Option Json
  pub headers : List (String × String)
  pub auth : Bool
  pub is_refresh_call : Bool

-- What a call ends in: data, an `ApiError` with its message and status, or the
-- error of a JSON text that does not parse.
pub data Outcome : Type 0 where
  done : Json → Outcome
  api_error : String → Option ℕ → Outcome
  syntax_error : Outcome

-- The module's memory, the requests made so far, and the other side.
pub record Browser (S : Type 0) : Type 0 where
  pub access_token : Option String
  pub sent : List Sent
  pub server : S

abbrev pub joined : String → String → String
joined s t = Prim.Native.String.◌++◌ s t

abbrev pub url_of : String → String → String
url_of base path =
    if starts_with (codes "http") (codes path)
    then path
    else joined base (if starts_with (codes "/") (codes path) then path else joined "/" path)

abbrev pub is_gate_open : String → String → Bool
is_gate_open path method = path == "/gate/open" && method == "POST"

-- the id of a request for the gate: that of the headers, or the new one
abbrev pub request_id_of : String → List (String × String) → String
request_id_of fresh headers =
    elim (or_else (lookup "X-Request-Id" headers) (lookup "x-request-id" headers)) [
      | none ↦ fresh
      | some id ↦ if id == "" then fresh else id
    ]

-- `{ ...a, ...b }`
abbrev pub spread : List (String × String) → List (String × String) → List (String × String)
spread a [] = a
spread a ((k, v) ∷ b) = spread (insert k v a) b

abbrev pub with_request_id : Bool → String → List (String × String) → List (String × String)
with_request_id is_open id hs =
    if is_open && not (id == "") then insert "X-Request-Id" id hs else hs

abbrev pub with_content_type : Option Json → List (String × String) → List (String × String)
with_content_type none hs = hs
with_content_type (some body) hs = insert "Content-Type" "application/json" hs

abbrev pub bearer : String → List (String × String) → List (String × String)
bearer token hs = insert "Authorization" (joined "Bearer " token) hs

abbrev pub with_token : Bool → Option String → List (String × String) → List (String × String)
with_token auth none hs = hs
with_token auth (some token) hs = if auth && not (token == "") then bearer token hs else hs

-- the request that `apiRequest` makes first
abbrev pub first_request : String → String → String → ApiOptions → Option String → Sent
first_request base fresh path o token = record {
  url = url_of base path;
  method = o.method;
  headers = with_token o.auth token (
      with_content_type o.body (
        with_request_id (is_gate_open path o.method) (request_id_of fresh o.headers)
          (spread (("Accept", "application/json") ∷ []) o.headers)));
  body = o.body;
}

-- the request that it makes again under a new token
abbrev pub again : String → String → ApiOptions → String → Sent → Sent
again fresh path o token q = record q {
  headers =
      with_request_id (is_gate_open path o.method) (request_id_of fresh o.headers)
        (bearer token q.headers);
}

abbrev pub is_success : ℕ → Bool
is_success status = leb 200 status && leb status 299

abbrev pub server_error : String
server_error = "\u{5e9}\u{5d2}\u{5d9}\u{5d0}\u{5ea} \u{5e9}\u{5e8}\u{5ea}"

module _ (to_text : Json → String) where
  -- `list.join(", ")`
  abbrev pub join_messages : List Json → String
  join_messages [] = ""
  join_messages (j ∷ []) = to_text j
  join_messages (j ∷ k ∷ js) = joined (to_text j) (joined ", " (join_messages (k ∷ js)))

  abbrev pub message_of : Content → String
  message_of no_json = server_error
  message_of malformed = server_error
  message_of (json j) = elim (field "message" j) [
    | none ↦ server_error
    | some (array js) ↦ join_messages (elements js)
    | some (text s) ↦ s
    | some v ↦ server_error
  ]

  -- the message, or the text of the status if there is none
  abbrev pub error_message : Response → String
  error_message r =
      let m = message_of r.content in
      if m == "" || m == server_error
      then (if r.status_text == "" then server_error else r.status_text)
      else m

  -- what `apiRequest` makes of the last answer
  abbrev pub outcome : Response → Outcome
  outcome r =
      let bad =
        if eqb r.status 401
        then api_error "AUTH_UNAUTHORIZED" (some 401)
        else api_error (error_message r) (some r.status) in
      elim r.content [
        | malformed ↦ syntax_error
        | no_json ↦ if is_success r.status then done null else bad
        | json j ↦ if is_success r.status then done j else bad
      ]

  abbrev pub answered : Option Response → Outcome
  answered none =
      api_error
        "\u{5e9}\u{5d2}\u{5d9}\u{5d0}\u{5ea} \u{5e8}\u{5e9}\u{5ea}, \u{5e0}\u{5e1}\u{5d5} \u{5e9}\u{5d5}\u{5d1}."
        none
  answered (some r) = outcome r

-- The text at `tokens.accessToken` of what a refresh answers.
abbrev pub member_of : String → Option Json → Option Json
member_of k none = none
member_of k (some j) = field k j

abbrev pub access_token_of : Outcome → Option String
access_token_of (done j) = text_of (member_of "accessToken" (field "tokens" j))
access_token_of _ = none

abbrev pub refresh_options : ApiOptions
refresh_options = record {
  method = "POST";
  body = none;
  headers = [];
  auth = false;
  is_refresh_call = true;
}

module _ {S : Type 0} (fetch : Sent → S → Option Response × S) (base : String)
    (to_text : Json → String) where
  -- `fetch`; without an answer the network has failed
  abbrev pub send : Sent → Browser S → Option Response × Browser S
  send q b = let (r, s) = fetch q b.server in (r, record b { sent = b.sent ++ q ∷ []; server = s })

  -- `apiRequest("/auth/refresh", …)`, which never refreshes
  abbrev pub refresh_request : Browser S → Outcome × Browser S
  refresh_request b =
      let (r, b') = send (first_request base "" "/auth/refresh" refresh_options b.access_token) b in
      (answered to_text r, b')

  -- `refreshAccessToken`
  unfoldable pub refresh_access_token : Browser S → Option String × Browser S
  refresh_access_token b =
      let (o, b') = refresh_request b in
      (access_token_of o, record b' { access_token = access_token_of o })

  module _ (fresh path : String) (o : ApiOptions) where
    -- after a refresh: once more under the new token, if there is one
    abbrev pub retry : Sent → Response → Option String → Browser S → Outcome × Browser S
    retry q r none b = (outcome to_text r, b)
    retry q r (some token) b =
        if token == ""
        then (outcome to_text r, b)
        else (let (r', b') = send (again fresh path o token q) b in (answered to_text r', b'))

    abbrev pub after_answer : Sent → Option Response → Browser S → Outcome × Browser S
    after_answer q none b = (answered to_text none, b)
    after_answer q (some r) b =
        if eqb r.status 401 && o.auth && not o.is_refresh_call
        then (let (t, b') = refresh_access_token b in retry q r t b')
        else (outcome to_text r, b)

    -- `apiRequest`
    unfoldable pub api_request : Browser S → Outcome × Browser S
    api_request b =
        let q = first_request base fresh path o b.access_token in
        let (r, b') = send q b in after_answer q r b'
