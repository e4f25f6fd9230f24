-- ===== src/FetchClient.antt =====
-- apps/web/lib/fetch-client.ts and apps/web/lib/token-manager.ts: the requests of the web interface to
-- the API. A call of `fetch` is answered by a function of what was sent before, which may reject it as
-- a lost connection or an abort does.
pub mod Outcome
pub mod Sharing
use code2cloud.Prelude.{
  ℕ, suc, String, ◌≤◌, ◌≡◌, Bool, true, false, not, Option, none, some, List, [], ◌∷◌, ◌++◌, ◌&&◌,
  nat_eq, leb, if◌then◌else◌, Dict, put, non_empty, truthy, ◌==◌,
}
use Prim.Native.String.{◌++◌ as append_text}

pub record Request : Type 0 where
  pub method : String
  pub url : String
  pub credentials : Option String
  pub headers : Dict String
  pub body : Option String

pub record Response : Type 0 where
  pub status : ℕ
  pub status_text : String
  pub content_type : Option String
  pub body : String

pub record AuthResponse : Type 0 where
  pub access_token : String
  pub refresh_token : String

pub data Error (Json : Type 0) : Type 0 where
  api_error : (message : String) (status : ℕ) (data_of : Option Json) → Error Json
  other_error : String → Error Json

pub data Fetched : Type 0 where
  responded : Response → Fetched
  rejected : String → Fetched

-- JSON.parse, which fails, JSON.stringify, the truth of a value, a text as a value, the text of an
-- object's `message` if it has one, and the reading of the answer of /auth/refresh; the text of
-- URLSearchParams; the test for "application/json" in a type; and the server.
pub record Platform (Json : Type 0) : Type 0 where
  pub parse : String → Option Json
  pub stringify : Json → String
  pub is_truthy : Json → Bool
  pub text_value : String → Json
  pub message_of : Json → Option String
  pub auth_of : Json → AuthResponse
  pub query_text : List (String × String) → String
  pub is_json : String → Bool
  pub answer : List Request → Request → Fetched
  -- `typeof window !== "undefined"`
  pub in_browser : Bool

-- The cookies, the requests sent so far and the events dispatched.
pub record Browser : Type 0 where
  pub access : Option String
  pub refresh : Option String
  pub sent : List Request
  pub changes : ℕ
  pub logouts : ℕ

pub data Answer (Json A : Type 0) : Type 0 where
  fulfilled : A → Answer Json A
  failed : Error Json → Answer Json A

abbrev pub Task : (Json : Type 0) → Type 0 → Type 0
Task Json A = Browser → Answer Json A × Browser

abbrev pub pure : {Json A : Type 0} → A → Task Json A
pure a b = (fulfilled a, b)

abbrev pub throw : {Json A : Type 0} → Error Json → Task Json A
throw e b = (failed e, b)

abbrev pub bind :
    {Json A B : Type 0} → Answer Json A × Browser → (A → Task Json B) → Answer Json B × Browser
bind (fulfilled a, c) f = f a c
bind (failed e, c) f = (failed e, c)

abbrev pub recover :
    {Json A : Type 0}
    → Answer Json A × Browser
    → (Error Json → Task Json A)
    → Answer Json A × Browser
recover (fulfilled a, c) f = (fulfilled a, c)
recover (failed e, c) f = f e c

infixl 5 ◌>>=◌ ◌>>◌
abbrev pub ◌>>=◌ : {Json A B : Type 0} → Task Json A → (A → Task Json B) → Task Json B
◌>>=◌ m f b = bind (m b) f

abbrev pub ◌>>◌ : {Json B : Type 0} → Task Json (Unit {0}) → Task Json B → Task Json B
m >> k = m >>= λ _. k

-- `try { m } catch (error) { … }`.
abbrev pub rescue : {Json A : Type 0} → Task Json A → (Error Json → Task Json A) → Task Json A
rescue m f b = recover (m b) f

abbrev pub get : {Json : Type 0} → Task Json Browser
get b = (fulfilled b, b)

-- `Cookies.get(name) || null`.
abbrev pub get_access_token : Browser → Option String
get_access_token b = non_empty b.access

abbrev pub get_refresh_token : Browser → Option String
get_refresh_token b = non_empty b.refresh

unfoldable pub set_tokens : {Json : Type 0} → AuthResponse → Task Json (Unit {0})
set_tokens tokens b = (
  fulfilled tt,
  record b {
    access = some tokens.access_token;
    refresh = some tokens.refresh_token;
    changes = suc b.changes;
  },
)

unfoldable pub clear_tokens : {Json : Type 0} → Task Json (Unit {0})
clear_tokens b = (fulfilled tt, record b { access = none; refresh = none; changes = suc b.changes })

pub record FetchClientConfig : Type 0 where
  pub base_url : String
  pub default_headers : Dict String

-- The values of `params` are printed by `String`.
pub record RequestOptions (Json : Type 0) : Type 0 where
  pub body : Option Json
  pub params : Option (List (String × Option String))
  pub skip_auth : Bool
  pub headers : Dict String
  pub credentials : Option String

abbrev pub is_ok : Response → Bool
is_ok res = leb 200 res.status && leb res.status 299

-- `{ ...first, ...second }`.
abbrev pub spread : Dict String → Dict String → Dict String
spread first [] = first
spread first ((k, v) ∷ second) = spread (put k v first) second

abbrev pub given_params : List (String × Option String) → List (String × String)
given_params [] = []
given_params ((k, none) ∷ ps) = given_params ps
given_params ((k, some v) ∷ ps) = (k, v) ∷ given_params ps

abbrev pub bearer : String → String
bearer token = append_text "Bearer " token

module _ {Json : Type 0} (p : Platform Json) (config : FetchClientConfig) where
  abbrev pub build_url : String → Option (List (String × Option String)) → String
  build_url url none = append_text config.base_url url
  build_url url (some params) =
      append_text (append_text (append_text config.base_url url) "?")
        (p.query_text (given_params params))

  abbrev pub receive : Fetched → Task Json Response
  receive (responded res) b = (fulfilled res, b)
  receive (rejected why) b = (failed (other_error why), b)

  -- `await fetch(…)`.
  unfoldable pub fetch : Request → Task Json Response
  fetch r b = receive (p.answer b.sent r) (record b { sent = b.sent ++ r ∷ [] })

  abbrev pub has_json : Option String → Bool
  has_json none = false
  has_json (some content_type) = p.is_json content_type

  abbrev pub parse_json : Option Json → Task Json (Option Json)
  parse_json none = throw (other_error "SyntaxError")
  parse_json (some j) = pure (some j)

  unfoldable pub safe_parse : Response → Task Json (Option Json)
  safe_parse res =
      if has_json res.content_type
      then parse_json (p.parse res.body)
      else if nat_eq res.status 204
      then pure none
      else pure (some (p.text_value res.body))

  abbrev pub base_headers : RequestOptions Json → Dict String
  base_headers options =
      spread (spread (("Content-Type", "application/json") ∷ []) config.default_headers)
        options.headers

  abbrev pub authorized : Bool → Option String → Dict String → Dict String
  authorized true token headers = headers
  authorized false none headers = headers
  authorized false (some token) headers = put "Authorization" (bearer token) headers

  abbrev pub fetch_body : Option Json → Option String
  fetch_body none = none
  fetch_body (some j) = if p.is_truthy j then some (p.stringify j) else none

  abbrev pub request_of : String → String → RequestOptions Json → Dict String → Request
  request_of method url options headers = record {
    method = method;
    url = build_url url options.params;
    credentials = options.credentials;
    headers = headers;
    body = fetch_body options.body;
  }

  abbrev pub refresh_request : String → Request
  refresh_request token = record {
    method = "POST";
    url = append_text config.base_url "/auth/refresh";
    credentials = some "include";
    headers = ("Content-Type", "application/json") ∷ ("Authorization", bearer token) ∷ [];
    body = none;
  }

  abbrev pub guard : Bool → String → Task Json (Unit {0})
  guard true why = pure tt
  guard false why = throw (other_error why)

  abbrev pub require : {A : Type 0} → Option A → String → Task Json A
  require none why = throw (other_error why)
  require (some a) why = pure a

  -- The body of `refreshTokens`, which no other request is sharing.
  unfoldable pub refresh_tokens : Task Json String
  refresh_tokens = do
    b ← get
    token ← require (get_refresh_token b) "No refresh token"
    res ← fetch (refresh_request token)
    guard (is_ok res) "Refresh failed"
    value ← require (p.parse res.body) "SyntaxError"
    set_tokens (p.auth_of value)
    pure (p.auth_of value).access_token

  unfoldable pub log_out : {A : Type 0} → Error Json → Task Json A
  log_out error = do
    clear_tokens
    (λ b. (fulfilled tt, record b { logouts = if p.in_browser then suc b.logouts else b.logouts }))
    throw error

  -- The tokens are renewed, and the request is sent again.
  unfoldable pub retry : Request → Task Json Response
  retry r =
      rescue
        (do
          token ← refresh_tokens
          guard (not (token == "")) "Refresh failed"
          fetch (record r { headers = put "Authorization" (bearer token) r.headers }))
        log_out

  abbrev pub message_or : String → Option Json → String
  message_or status_text none = status_text
  message_or status_text (some j) = elim (p.message_of j) [ none ↦ status_text | some m ↦ m ]

  unfoldable pub finish : Response → Task Json (Option Json)
  finish res = if is_ok res then safe_parse res else do
    error_data ← safe_parse res
    throw (api_error (message_or res.status_text error_data) res.status error_data)

  abbrev pub first_request : String → String → RequestOptions Json → Browser → Request
  first_request method url options b =
      request_of method url options
        (authorized options.skip_auth (get_access_token b) (base_headers options))

  unfoldable pub request : String → String → RequestOptions Json → Task Json (Option Json)
  request method url options = do
    b ← get
    let r = first_request method url options b
    res ← fetch r
    b' ← get
    let expired = nat_eq res.status 401 && (not options.skip_auth && truthy (get_refresh_token b'))
    res' ← (if expired then retry r else pure res)
    finish res'
