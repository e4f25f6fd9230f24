-- ===== src/Proxy.antt =====
-- apps/web/proxy.ts: what runs before a page of the dashboard, the profile or the settings is served.
use code2cloud.Prelude.{
  sym, ◌∙◌, String, ◌≡◌, refl, subst, Bool, true, false, not, Option, none, some, [], ◌∷◌, ◌&&◌,
  nat_eq, ◌⊎◌, inl, inr, if◌then◌else◌, truthy, non_empty, Bool-cases, Option-cases, arith,
}
use code2cloud.FetchClient.{
  Request, Response, AuthResponse, Fetched, responded, rejected, Platform, Browser, Answer,
  fulfilled, failed, FetchClientConfig, RequestOptions, Error, bind, throw, bearer, is_ok, has_json,
  safe_parse, finish, request, first_request,
}
use code2cloud.FetchClient.Outcome.{RequestOutcome, lost, direct, repeated, request_lem}

-- `NextResponse.next()`, with the cookies that it sets, or a redirection to /auth with its `from`.
pub data Verdict : Type 0 where
  pass : Option AuthResponse → Verdict
  login : String → Verdict

-- The cookies and the path of a request.
pub record NextRequest : Type 0 where
  pub access_token : Option String
  pub refresh_token : Option String
  pub pathname : String

none_left : {a : String} → ◌≡◌ {A = Option String} none (some a) → ⊥
none_left e = cc

some-inj : {a b : String} → ◌≡◌ {A = Option String} (some a) (some b) → a ≡ b
some-inj e = cc

module _ {Json : Type 0} (p : Platform Json) (config : FetchClientConfig)
    (jwt_verify : String → Bool) where
  abbrev pub is_access_valid : Option String → Bool
  is_access_valid token = truthy token && elim token [ none ↦ false | some t ↦ jwt_verify t ]

  abbrev pub middleware_options : String → RequestOptions Json
  middleware_options token = record {
    body = none;
    params = none;
    skip_auth = true;
    headers = ("Authorization", bearer token) ∷ [];
    credentials = none;
  }

  -- The answer to the refresh, or the `catch`.
  abbrev pub settle : String → Answer Json (Option Json) → Verdict
  settle path (fulfilled (some value)) = pass (some (p.auth_of value))
  settle path (fulfilled none) = login path
  settle path (failed e) = login path

  abbrev pub refresh_by : String → Option String → Browser → Verdict
  refresh_by path none b = login path
  refresh_by path (some token) b =
      settle path ((request p config "POST" "/auth/refresh" (middleware_options token) b).0)

  unfoldable pub proxy : NextRequest → Browser → Verdict
  proxy r b =
      if is_access_valid r.access_token
      then pass none
      else if not (truthy r.access_token) && not (truthy r.refresh_token)
      then login r.pathname
      else refresh_by r.pathname (non_empty r.refresh_token) b

  -- What the API gives for a refresh token, if it gives anything.
  abbrev pub value_of : Response → Option Json
  value_of res =
      if has_json p config res.content_type
      then p.parse res.body
      else if nat_eq res.status 204
      then none
      else some (p.text_value res.body)

  abbrev pub given_by : Fetched → Option AuthResponse
  given_by (rejected why) = none
  given_by (responded res) =
      if is_ok res then elim (value_of res) [ none ↦ none | some v ↦ some (p.auth_of v) ] else none

  abbrev pub refresh_call : String → Browser → Request
  refresh_call token b = first_request p config "POST" "/auth/refresh" (middleware_options token) b

  abbrev pub given : String → Browser → Option AuthResponse
  given token b = given_by (p.answer b.sent (refresh_call token b))

  abbrev verdict_of : String → Option AuthResponse → Verdict
  verdict_of path none = login path
  verdict_of path (some tokens) = pass (some tokens)

  read_of : Answer Json (Option Json) → Option Json
  read_of (fulfilled v) = v
  read_of (failed e) = none

  settle-read_of :
      (path : String) (x : Answer Json (Option Json))
      → settle path x
        ≡ verdict_of path (elim (read_of x) [ none ↦ none | some v ↦ some (p.auth_of v) ])
  unfolding read_of
  settle-read_of path (fulfilled none) = refl
  settle-read_of path (fulfilled (some v)) = refl
  settle-read_of path (failed e) = refl

  read_of-safe_parse :
      (res : Response) (b : Browser) → read_of ((safe_parse p config res b).0) ≡ value_of res
  unfolding read_of safe_parse
  read_of-safe_parse res b = elim (Bool-cases (has_json p config res.content_type)) [
    | inl json ↦ elim (Option-cases (p.parse res.body)) [
      | inl unread ↦ rw (json, unread) refl
      | inr (v, read) ↦ rw (json, read) refl
    ]
    | inr other ↦ elim (Bool-cases (nat_eq res.status 204)) [
      | inl empty ↦ rw (other, empty) refl
      | inr full ↦ rw (other, full) refl
    ]
  ]

  settle-throw :
      (path : String) (x : Answer Json (Option Json) × Browser) (why : Option Json → Error Json)
      → settle path ((bind x (λ v. throw (why v))).0) ≡ login path
  settle-throw path (fulfilled v, c) why = refl
  settle-throw path (failed e, c) why = refl

  settle-finish :
      (path : String) (res : Response) (b : Browser)
      → settle path ((finish p config res b).0) ≡ verdict_of path (given_by (responded res))
  unfolding finish
  settle-finish path res b = elim (Bool-cases (is_ok res)) [
    | inr bad ↦ rw bad (settle-throw path (safe_parse p config res b) _)
    | inl good ↦
        rw (good, settle-read_of path ((safe_parse p config res b).0), read_of-safe_parse res b)
          refl
  ]

  skipped : (c : Bool) → c && false ≡ true → ⊥
  skipped c e = ground arith

  refresh_by_lem :
      (path token : String) (b : Browser)
      → refresh_by path (some token) b ≡ verdict_of path (given token b)
  refresh_by_lem path token b =
      by_outcome (request_lem p config "POST" "/auth/refresh" (middleware_options token) b)
    where
      by_outcome :
          {x : Answer Json (Option Json) × Browser}
          → RequestOutcome p config (refresh_call token b) true b x
          → settle path (x.0) ≡ verdict_of path (given token b)
      by_outcome (lost e) = rw e refl
      by_outcome (direct res e kept) = rw e (settle-finish path res _)
      by_outcome (repeated res t x e expired has o) =
          absurd (skipped (nat_eq res.status 401) expired)

  truthy-non_empty : (o : Option String) (s : String) → non_empty o ≡ some s → truthy o ≡ true
  truthy-non_empty none s e = absurd (cc)
  truthy-non_empty (some t) s e = ground arith

  proxy-refresh :
      (r : NextRequest) (token : String) (b : Browser)
      → is_access_valid r.access_token ≡ false
      → non_empty r.refresh_token ≡ some token
      → proxy r b ≡ verdict_of r.pathname (given token b)
  unfolding proxy
  proxy-refresh r token b invalid has = elim (Bool-cases (truthy r.access_token)) [
    | inl stale ↦ rw (invalid, stale, has) (refresh_by_lem r.pathname token b)
    | inr gone ↦
        rw (invalid, gone, truthy-non_empty r.refresh_token token has, has)
          (refresh_by_lem r.pathname token b)
  ]

  -- A request for a protected page passes exactly in two ways: its access token is valid; or it is
  -- not, and the API renews the refresh token that the request has, whose new tokens are then set as
  -- cookies. Every other request is sent to the login with its path, that of an API that cannot be
  -- reached or whose answer cannot be read among them.
  pub proxy_lem :
      (r : NextRequest) (b : Browser)
      → ((is_access_valid r.access_token ≡ true) × (proxy r b ≡ pass none))
        ⊎ ((is_access_valid r.access_token ≡ false)
            × ((token : String) × (tokens : AuthResponse) × (non_empty r.refresh_token ≡ some token)
                × (given token b ≡ some tokens)
                × (proxy r b ≡ pass (some tokens))))
        ⊎ ((is_access_valid r.access_token ≡ false)
            × ((token : String) → non_empty r.refresh_token ≡ some token → given token b ≡ none)
            × (proxy r b ≡ login r.pathname))
  unfolding proxy
  proxy_lem r b = elim (Bool-cases (is_access_valid r.access_token)) [
    | inl valid ↦ inl (valid, rw valid refl)
    | inr invalid ↦ inr (elim (Option-cases (non_empty r.refresh_token)) [
      | inl missing ↦ inr (
        invalid,
        λ token has. absurd (none_left (sym missing ∙ has)),
        rw (invalid, missing) (ground arith),
      )
      | inr (token, has) ↦ elim (Option-cases (given token b)) [
        | inl refused ↦ inr (
          invalid,
          λ t also.
              let same = some-inj (sym has ∙ also) in subst (λ u. given u b ≡ none) same refused,
          proxy-refresh r token b invalid has ∙ rw refused refl,
        )
        | inr (tokens, renewed) ↦ inl (
          invalid,
          (token, tokens, has, renewed, proxy-refresh r token b invalid has ∙ rw renewed refl),
        )
      ]
    ])
  ]
