-- ===== src/FetchClient/Outcome.antt =====
-- What a request of the web interface sends, and what it leaves of the tokens.
use mathlib.Core.Bool.{false≢true}
use code2cloud.Prelude.{
  ℕ, suc, String, ◌≡◌, refl, Bool, true, false, not, Option, none, some, List, [], ◌∷◌, ◌++◌, ◌&&◌,
  nat_eq, if◌then◌else◌, put, truthy, ◌==◌, arith, Bool-cases, Option-cases, and_right, ◌⊎◌, inl,
  inr,
}
use code2cloud.FetchClient.{
  Request, Response, AuthResponse, Error, other_error, Fetched, responded, rejected, Platform,
  Browser, Answer, fulfilled, failed, bind, FetchClientConfig, RequestOptions, get_refresh_token,
  set_tokens, clear_tokens, is_ok, bearer, fetch, safe_parse, refresh_request, refresh_tokens,
  log_out, retry, finish, first_request, request,
}

fetched_cases :
    (f : Fetched) → ((res : Response) × (f ≡ responded res)) ⊎ ((why : String) × (f ≡ rejected why))
fetched_cases (responded res) = inl (res, refl)
fetched_cases (rejected why) = inr (why, refl)

module _ {Json : Type 0} (p : Platform Json) (config : FetchClientConfig) where
  -- The tokens that the server gives for a refresh token, if it gives any.
  abbrev pub renewal_of : Fetched → Option AuthResponse
  renewal_of (rejected why) = none
  renewal_of (responded res) =
      if is_ok res
      then elim (p.parse res.body) [
        | none ↦ none
        | some value ↦ if (p.auth_of value).access_token == "" then none else some (p.auth_of value)
      ]
      else none

  abbrev pub renewal : List Request → String → Option AuthResponse
  renewal sent token = renewal_of (p.answer sent (refresh_request p config token))

  abbrev pub with_token : String → Request → Request
  with_token token r = record r { headers = put "Authorization" (bearer token) r.headers }

  abbrev logged_out : Browser → ℕ
  logged_out b = if p.in_browser then suc b.logouts else b.logouts

  -- What a new sending of `r` after a renewal by `token` comes to.
  pub data RetryOutcome (r : Request) (token : String) (b : Browser)
      : Answer Json Response × Browser → Type 0 where
    refused :
        {a : Error Json} {c : Browser}
        → renewal b.sent token ≡ none
        → c.sent ≡ b.sent ++ refresh_request p config token ∷ []
        → c.access ≡ none
        → c.refresh ≡ none
        → c.logouts ≡ logged_out b
        → RetryOutcome r token b (failed a, c)
    lost_again :
        {c : Browser} {why : String} (tokens : AuthResponse)
        → renewal b.sent token ≡ some tokens
        → p.answer
            (b.sent ++ refresh_request p config token ∷ [])
            (with_token tokens.access_token r)
          ≡ rejected why
        → c.sent
          ≡ (b.sent ++ refresh_request p config token ∷ []) ++ with_token tokens.access_token r ∷ []
        → c.access ≡ none
        → c.refresh ≡ none
        → c.logouts ≡ logged_out b
        → RetryOutcome r token b (failed (other_error why), c)
    renewed :
        {c : Browser} {res : Response} (tokens : AuthResponse)
        → renewal b.sent token ≡ some tokens
        → p.answer
            (b.sent ++ refresh_request p config token ∷ [])
            (with_token tokens.access_token r)
          ≡ responded res
        → c.sent
          ≡ (b.sent ++ refresh_request p config token ∷ []) ++ with_token tokens.access_token r ∷ []
        → c.access ≡ some tokens.access_token
        → c.refresh ≡ some tokens.refresh_token
        → c.logouts ≡ b.logouts
        → RetryOutcome r token b (fulfilled res, c)

  retry_lem :
      (r : Request) (token : String) (b : Browser)
      → get_refresh_token b ≡ some token
      → RetryOutcome r token b (retry p config r b)
  unfolding retry refresh_tokens fetch log_out clear_tokens set_tokens
  retry_lem r token b has =
      rw has (elim (fetched_cases (p.answer b.sent (refresh_request p config token))) [
        | inr (why, e) ↦ rw e (refused (rw e refl) refl refl refl refl)
        | inl (res, e) ↦ elim (Bool-cases (is_ok res)) [
          | inr bad ↦ rw (e, bad) (refused (rw (e, bad) refl) refl refl refl refl)
          | inl good ↦ elim (Option-cases (p.parse res.body)) [
            | inl unread ↦
                rw (e, good, unread) (refused (rw (e, good, unread) refl) refl refl refl refl)
            | inr (value, read) ↦ elim (Bool-cases ((p.auth_of value).access_token == "")) [
              | inl empty ↦
                  rw (e, good, read, empty)
                    (refused (rw (e, good, read, empty) refl) refl refl refl refl)
              | inr full ↦
                  elim (fetched_cases (
                    p.answer (b.sent ++ refresh_request p config token ∷ [])
                      (with_token (p.auth_of value).access_token r))) [
                        | inr (why, e2) ↦
                            rw (e, good, read, full, e2)
                              (lost_again (p.auth_of value) (rw (e, good, read, full) refl) e2 refl
                                refl refl refl)
                        | inl (res2, e2) ↦
                            rw (e, good, read, full, e2)
                              (renewed (p.auth_of value) (rw (e, good, read, full) refl) e2 refl
                                refl refl refl)
                      ]
            ]
          ]
        ]
      ])

  -- Reading an answer changes nothing.
  finish-browser : (res : Response) (b : Browser) → (finish p config res b).1 ≡ b
  unfolding finish safe_parse
  finish-browser res b = ground arith

  abbrev pub is_expired : Bool → Response → Browser → Bool
  is_expired skip_auth res b =
      nat_eq res.status 401 && (not skip_auth && truthy (get_refresh_token b))

  abbrev pub after : Request → Browser → Browser
  after r b = record b { sent = b.sent ++ r ∷ [] }

  pub data RequestOutcome (r : Request) (skip_auth : Bool) (b : Browser)
      : Answer Json (Option Json) × Browser → Type 0 where
    lost :
        {why : String}
        → p.answer b.sent r ≡ rejected why
        → RequestOutcome r skip_auth b (failed (other_error why), after r b)
    direct :
        (res : Response)
        → p.answer b.sent r ≡ responded res
        → is_expired skip_auth res b ≡ false
        → RequestOutcome r skip_auth b (finish p config res (after r b))
    repeated :
        (res : Response) (token : String) (x : Answer Json Response × Browser)
        → p.answer b.sent r ≡ responded res
        → is_expired skip_auth res b ≡ true
        → get_refresh_token b ≡ some token
        → RetryOutcome r token (after r b) x
        → RequestOutcome r skip_auth b (bind x (finish p config))

  truthy-some : (o : Option String) → truthy o ≡ true → (s : String) × (o ≡ some s)
  truthy-some none e = absurd (false≢true e)
  truthy-some (some s) e = (s, refl)

  -- A request is sent once. Only if it is answered with 401, uses the tokens and there is a refresh
  -- token is that token sent to /auth/refresh: if it is renewed, the new tokens are kept and the
  -- request is sent a second and last time, with the new access token; if it is not, or if the second
  -- sending is rejected, the tokens are removed, the application is told of the logout and the request
  -- throws. In all other cases the tokens stay, and the last answer decides the result.
  pub request_lem :
      (method url : String) (options : RequestOptions Json) (b : Browser)
      → RequestOutcome
          (first_request p config method url options b)
          options.skip_auth
          b
          (request p config method url options b)
  unfolding request fetch
  request_lem method url options b =
      let r = first_request p config method url options b in
      elim (fetched_cases (p.answer b.sent r)) [
        | inr (why, e) ↦ rw e (lost e)
        | inl (res, e) ↦ elim (Bool-cases (is_expired options.skip_auth res b)) [
          | inr kept ↦ rw (e, kept) (direct res e kept)
          | inl expired ↦
              let uses : truthy (get_refresh_token b) ≡ true =
                and_right (not options.skip_auth) _ (and_right (nat_eq res.status 401) _ expired) in
              let (token, has) = truthy-some (get_refresh_token b) uses in
              rw (e, expired)
                (repeated res token (retry p config r (after r b)) e expired has
                  (retry_lem r token (after r b) has))
        ]
      ]
