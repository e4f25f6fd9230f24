-- ===== src/Tests/Fetching.antt =====
-- Runs of the requests of the web interface.
use code2cloud.Prelude.{
  ℕ, ◌≤◌, String, ◌≡◌, refl, true, false, none, some, List, [], ◌∷◌, ◌⊎◌, In, length, ◌==◌,
  if◌then◌else◌, non_empty,
}
use code2cloud.FetchClient.{
  Request, Response, AuthResponse, Fetched, responded, Platform, Browser, FetchClientConfig,
  RequestOptions, first_request, request, retry, refresh_tokens, fetch, finish, safe_parse,
  set_tokens,
}
use code2cloud.FetchClient.Outcome.{RequestOutcome, request_lem}
use code2cloud.FetchClient.Sharing.{
  Shared, Reach, here, next, expire, sharing, call_refresh_tokens, Reach-single_refresh,
}
use code2cloud.Proxy.{NextRequest, pass, login, is_access_valid, proxy, given, proxy_lem}

abbrev response : ℕ → Response
response status = record {
  status = status;
  status_text = "text";
  content_type = some "application/json";
  body = "{}";
}

-- A server whose first access token is expired.
abbrev server : List Request → Request → Fetched
server [] r =
    if r.url == "/auth/refresh" then responded (response 200) else responded (response 401)
server (a ∷ sent) r = responded (response 200)

abbrev text_platform : Platform String
text_platform = record {
  parse = λ s. some s;
  stringify = λ s. s;
  is_truthy = λ s. true;
  text_value = λ s. s;
  message_of = λ s. some s;
  auth_of = λ s. record { access_token = "new"; refresh_token = "next" };
  query_text = λ ps. "";
  is_json = λ s. true;
  answer = server;
  in_browser = true;
}

abbrev local : FetchClientConfig
local = record { base_url = ""; default_headers = ("Accept", "application/json") ∷ [] }

abbrev plain_options : RequestOptions String
plain_options = record {
  body = none;
  params = none;
  skip_auth = false;
  headers = [];
  credentials = none;
}

abbrev browser : Browser
browser = record { access = some "old"; refresh = some "r1"; sent = []; changes = 0; logouts = 0 }

request_lem_example :
    RequestOutcome text_platform local
      (first_request text_platform local "GET" "/projects" plain_options browser)
      false
      browser
      (request text_platform local "GET" "/projects" plain_options browser)
request_lem_example = request_lem text_platform local "GET" "/projects" plain_options browser

renewed_access :
    (request text_platform local "GET" "/projects" plain_options browser).1.access ≡ some "new"
unfolding request retry refresh_tokens fetch finish safe_parse set_tokens
renewed_access = refl

abbrev page_request : NextRequest
page_request = record { access_token = none; refresh_token = some "r1"; pathname = "/dashboard" }

proxy_lem_example :
    ((is_access_valid text_platform local (λ t. true) none ≡ true)
      × (proxy text_platform local (λ t. true) page_request browser ≡ pass none))
    ⊎ ((is_access_valid text_platform local (λ t. true) none ≡ false)
        × ((token : String) × (tokens : AuthResponse) × (non_empty (some "r1") ≡ some token)
            × (given text_platform local (λ t. true) token browser ≡ some tokens)
            × (proxy text_platform local (λ t. true) page_request browser ≡ pass (some tokens))))
    ⊎ ((is_access_valid text_platform local (λ t. true) none ≡ false)
        × ((token : String)
            → non_empty (some "r1") ≡ some token
            → given text_platform local (λ t. true) token browser ≡ none)
        × (proxy text_platform local (λ t. true) page_request browser ≡ login "/dashboard"))
proxy_lem_example = proxy_lem text_platform local (λ t. true) page_request browser

abbrev one_call : Shared
one_call = call_refresh_tokens (call_refresh_tokens (sharing (some "r1")))

one_call-Reach : Reach (sharing (some "r1")) one_call
one_call-Reach = next (next here expire) expire

Reach-single_refresh_example :
    (length one_call.calls ≤ 1)
    × ((k : ℕ) (token : String)
        → In (k, token) one_call.calls
        → (one_call.refresh_promise ≡ some k) × (call_refresh_tokens one_call ≡ one_call))
Reach-single_refresh_example = Reach-single_refresh one_call-Reach
