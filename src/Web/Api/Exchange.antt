-- ===== src/Web/Api/Exchange.antt =====
-- What one call of the server sends (`apiRequest` of frontend/src/lib/api.ts).
use parking_gate_remote.Common.{
  String, ◌≡◌, ◌≢◌, refl, ap, sym, subst, ◌∙◌, Bool, true, false, not, Option, none, some, List, [],
  ◌∷◌, ◌++◌, append_assoc, ◌==◌, ◌&&◌, if◌then◌else◌, eqb, if-holds, Bool-cases, ◌⊎◌, inl, inr,
  arith, eq_iff,
}
use parking_gate_remote.Common.Assoc.{lookup, string_eq, lookup-insert}
use parking_gate_remote.Common.Json.{Json}
use parking_gate_remote.Web.Api.{
  Sent, Response, ApiOptions, Browser, first_request, again, bearer, with_request_id,
  with_content_type, with_token, spread, request_id_of, is_gate_open, refresh_options,
  refresh_access_token, retry, send, outcome, joined, after_answer, api_request,
}

-- A request is another one under a new token: nothing else of it has changed.
pub record Repeats (q c : Sent) (token : String) : Type 0 where
  pub url : c.url ≡ q.url
  pub method : c.method ≡ q.method
  pub body : c.body ≡ q.body
  pub authorization : lookup "Authorization" c.headers ≡ some (joined "Bearer " token)
  pub others :
      (name : String) → name ≢ "Authorization" → lookup name c.headers ≡ lookup name q.headers

with_content_type-keeps :
    (b : Option Json) (hs : List (String × String))
    → lookup "X-Request-Id" (with_content_type b hs) ≡ lookup "X-Request-Id" hs
with_content_type-keeps none hs = refl
with_content_type-keeps (some j) hs =
    lookup-insert "Content-Type" "X-Request-Id" "application/json" hs

bearer-keeps :
    (token : String) (hs : List (String × String))
    → lookup "X-Request-Id" (bearer token hs) ≡ lookup "X-Request-Id" hs
bearer-keeps token hs = lookup-insert "Authorization" "X-Request-Id" (joined "Bearer " token) hs

with_token-keeps :
    (auth : Bool) (token : Option String) (hs : List (String × String))
    → lookup "X-Request-Id" (with_token auth token hs) ≡ lookup "X-Request-Id" hs
with_token-keeps auth none hs = refl
with_token-keeps auth (some token) hs =
    if-holds (λ xs. lookup "X-Request-Id" xs ≡ lookup "X-Request-Id" hs) (auth && not (token == ""))
      (bearer token hs) hs (bearer-keeps token hs) refl

-- The id is written again where it stands.
again-id :
    (is_open : Bool) (id name : String) (hs ks : List (String × String))
    → lookup "X-Request-Id" ks ≡ lookup "X-Request-Id" (with_request_id is_open id hs)
    → lookup name (with_request_id is_open id ks) ≡ lookup name ks
again-id true id name hs ks h = elim (Bool-cases (id == "")) [
  | inl e ↦ ground (arith, e)
  | inr e ↦ elim (Bool-cases ("X-Request-Id" == name)) [
    | inl k ↦ ground (
      arith,
      e,
      k,
      h,
      (eq_iff "X-Request-Id" name).0 k,
      lookup-insert "X-Request-Id" name id ks,
      lookup-insert "X-Request-Id" "X-Request-Id" id hs,
    )
    | inr k ↦ ground (arith, e, k, lookup-insert "X-Request-Id" name id ks)
  ]
]
again-id false id name hs ks h = refl

again-Repeats :
    (base fresh path : String) (o : ApiOptions) (old : Option String) (token : String)
    → Repeats
        (first_request base fresh path o old)
        (again fresh path o token (first_request base fresh path o old))
        token
again-Repeats base fresh path o old token =
    let is_open = is_gate_open path o.method in
    let id = request_id_of fresh o.headers in
    let given = spread (("Accept", "application/json") ∷ []) o.headers in
    let hs = with_request_id is_open id given in
    let q = first_request base fresh path o old in
    let same : lookup "X-Request-Id" (bearer token q.headers) ≡ lookup "X-Request-Id" hs =
      bearer-keeps token q.headers
      ∙ with_token-keeps o.auth old (with_content_type o.body hs)
      ∙ with_content_type-keeps o.body hs in
    record {
      url = refl;
      method = refl;
      body = refl;
      authorization =
          again-id is_open id "Authorization" given (bearer token q.headers) same
          ∙ lookup-insert "Authorization" "Authorization" (joined "Bearer " token) q.headers;
      others = λ name other.
          again-id is_open id name given (bearer token q.headers) same
          ∙ lookup-insert "Authorization" name (joined "Bearer " token) q.headers
          ∙ ground (arith, other, eq_iff "Authorization" name);
    }

module _ {S : Type 0} (fetch : Sent → S → Option Response × S) (base : String)
    (to_text : Json → String) where
  -- The request that renews the token.
  abbrev pub renewal : Option String → Sent
  renewal token = first_request base "" "/auth/refresh" refresh_options token

  -- What one call adds to the requests made: its own; or, when that is answered by 401 to a call
  -- that is authorized and is no refresh, a renewal after it; or its own once more after that.
  abbrev pub Exchanged : Sent → ApiOptions → Option Response → List Sent → List Sent → Type 0
  Exchanged q o answer before after =
      (after ≡ before ++ q ∷ [])
      ⊎ ((o.auth ≡ true)
          × (o.is_refresh_call ≡ false)
          × ((r : Response) × (answer ≡ some r) × (r.status ≡ 401))
          × ((old : Option String) × ((after ≡ before ++ q ∷ renewal old ∷ [])
                ⊎ ((token : String) × (c : Sent) × (token ≢ "")
                    × Repeats q c token
                    × (after ≡ before ++ q ∷ renewal old ∷ c ∷ [])))))

  retry-sent :
      (fresh path : String) (o : ApiOptions) (q : Sent) (r : Response) (t : Option String)
      (b : Browser S)
      → ((retry fetch base to_text fresh path o q r t b).1.sent ≡ b.sent)
        ⊎ ((token : String) × (token ≢ "")
            × ((retry fetch base to_text fresh path o q r t b).1.sent
                ≡ b.sent ++ again fresh path o token q ∷ []))
  retry-sent fresh path o q r none b = inl refl
  retry-sent fresh path o q r (some token) b = elim (Bool-cases (token == "")) [
    | inl e ↦ inl (ground (arith, e))
    | inr e ↦ inr (token, ground (arith, e, eq_iff token ""), ground (arith, e))
  ]

  renewed-Exchanged :
      (fresh path : String) (o : ApiOptions) (old t held : Option String) (r : Response)
      (before : List Sent) (b : Browser S)
      → o.auth ≡ true
      → o.is_refresh_call ≡ false
      → r.status ≡ 401
      → b.sent ≡ before ++ first_request base fresh path o old ∷ renewal held ∷ []
      → Exchanged
          (first_request base fresh path o old)
          o
          (some r)
          before
          (retry fetch base to_text fresh path o (first_request base fresh path o old) r t b).1.sent
  renewed-Exchanged fresh path o old t held r before b h k w l =
      let q = first_request base fresh path o old in
      elim (retry-sent fresh path o q r t b) [
        | inl s ↦ inr (h, k, (r, refl, w), (held, inl (s ∙ l)))
        | inr (token, ne, s) ↦
            let c = again fresh path o token q in
            inr (
              h,
              k,
              (r, refl, w),
              (
                held,
                inr (
                  token,
                  c,
                  ne,
                  again-Repeats base fresh path o old token,
                  s
                      ∙ ap (λ xs. xs ++ c ∷ []) l
                      ∙ append_assoc before (q ∷ renewal held ∷ []) (c ∷ []),
                ),
              ),
            )
      ]

  answered-Exchanged :
      (fresh path : String) (o : ApiOptions) (old : Option String) (r : Option Response)
      (before : List Sent) (b : Browser S)
      → b.sent ≡ before ++ first_request base fresh path o old ∷ []
      → Exchanged
          (first_request base fresh path o old)
          o
          r
          before
          (after_answer fetch base to_text fresh path o
            (first_request base fresh path o old)
            r
            b).1.sent
  unfolding refresh_access_token
  answered-Exchanged fresh path o old none before b l = inl l
  answered-Exchanged fresh path o old (some r) before b l =
      let q = first_request base fresh path o old in
      let (t, b') = refresh_access_token fetch base to_text b in
      elim (Bool-cases (eqb r.status 401 && o.auth && not o.is_refresh_call))
        as (λ x.
          Exchanged q o (some r) before
            (after_answer fetch base to_text fresh path o q (some r) b).1.sent) [
              | inl e ↦
                  subst
                    (λ x.
                      Exchanged q o (some r) before
                        (if x
                          then retry fetch base to_text fresh path o q r t b'
                          else (outcome to_text r, b)).1.sent)
                    (sym e)
                    (renewed-Exchanged fresh path o old t b.access_token r before b'
                      (ground (arith, e)) (ground (arith, e)) (ground (arith, e))
                      (ap (λ xs. xs ++ renewal b.access_token ∷ []) l
                        ∙ append_assoc before (q ∷ []) (renewal b.access_token ∷ [])))
              | inr e ↦
                  subst
                    (λ x.
                      Exchanged q o (some r) before
                        (if x
                          then retry fetch base to_text fresh path o q r t b'
                          else (outcome to_text r, b)).1.sent)
                    (sym e) (inl l)
            ]

  -- One call of `apiRequest`, none other going on, makes one request, or two, or three. The second
  -- only follows when the first is answered by 401, and the call is authorized and is no refresh; it
  -- renews the token. The third has a token that is not empty, and it is the first again: the same
  -- address, method, body and headers, so also the same id of the request, but for that token.
  pub api_request-Exchanged :
      (fresh path : String) (o : ApiOptions) (b : Browser S)
      → Exchanged
          (first_request base fresh path o b.access_token)
          o
          (fetch (first_request base fresh path o b.access_token) b.server).0
          b.sent
          (api_request fetch base to_text fresh path o b).1.sent
  unfolding api_request
  api_request-Exchanged fresh path o b =
      let q = first_request base fresh path o b.access_token in
      let (r, b') = send fetch base to_text q b in
      answered-Exchanged fresh path o b.access_token r b.sent b' refl
