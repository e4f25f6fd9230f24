-- ===== src/GithubSignIn/Exchange.antt =====
-- apps/api/src/git/git.service.ts, `exchangeCodeForUser`: what GitHub tells of the user whose code
-- came back. The requests to GitHub are a parameter: `none` is one that throws.
use code2cloud.Prelude.{
  ℕ, String, Bool, Option, none, some, List, ◌&&◌, find?, head?, ltb, non_empty, if◌then◌else◌,
}
use code2cloud.World.{Act, bad_request, require}

-- common/types/type.ts
pub record GithubUserProfile : Type 0 where
  pub id : ℕ
  pub login : String
  pub avatar_url : Option String
  pub name : Option String
  pub email : Option String

pub record GithubOauthSuccess : Type 0 where
  pub access_token : String
  pub refresh_token : Option (Option String)

pub data GithubOauthResponse : Type 0 where
  granted : GithubOauthSuccess → GithubOauthResponse
  refused : String → GithubOauthResponse

pub record GithubUserEmail : Type 0 where
  pub email : String
  pub primary : Bool
  pub verified : Bool

pub record GithubInstallations : Type 0 where
  pub total_count : ℕ
  pub installations : List ℕ

-- `github.com/login/oauth/access_token` for the app's client, and `api.github.com/user`, its
-- `/emails` and its `/installations` for a token; `String(n)` on a number.
pub record GithubOauth : Type 0 where
  pub request_token : (client_id client_secret code : String) → Option GithubOauthResponse
  pub get_user : String → Option GithubUserProfile
  pub get_emails : String → Option (List GithubUserEmail)
  pub get_installations : String → Option GithubInstallations
  pub to_text : ℕ → String

-- `config.get`: `none` makes `getOrThrow` throw.
pub record Config : Type 0 where
  pub github_client_id : Option String
  pub github_client_secret : Option String
  pub jwt_secret : Option String
  pub app_url : String

pub record ExchangedUser : Type 0 where
  pub token : GithubOauthSuccess
  pub user_profile : GithubUserProfile
  pub installation_id : Option String

abbrev pub or_some : Option String → Option String → Option String
or_some none b = b
or_some (some a) b = some a

abbrev pub email_of : Option GithubUserEmail → Option String
email_of none = none
email_of (some e) = non_empty (some e.email)

-- `primaryEmail?.email || emailsRes.data[0]?.email || null`
abbrev pub best_email : List GithubUserEmail → Option String
best_email emails =
    or_some (email_of (find? (λ (e : GithubUserEmail). e.primary && e.verified) emails))
      (email_of (head? emails))

abbrev pub with_email : GithubUserProfile → Option (List GithubUserEmail) → GithubUserProfile
with_email profile none = profile
with_email profile (some emails) = record profile { email = best_email emails }

-- `if (!userProfile.email)`
abbrev pub complete_email : GithubUserProfile → Option (List GithubUserEmail) → GithubUserProfile
complete_email profile emails = elim (non_empty profile.email) [
  | none ↦ with_email profile emails
  | some _ ↦ profile
]

infixl 5 ◌>>=◌
abbrev ◌>>=◌ : {A B : Type 0} → Option A → (A → Option B) → Option B
◌>>=◌ o f = elim o [ none ↦ none | some a ↦ f a ]

abbrev grant_of : GithubOauthResponse → Option GithubOauthSuccess
grant_of (granted token) = some token
grant_of (refused description) = none

module _ ⦃github : GithubOauth⦄ (config : Config) where
  abbrev pub discover_installation : Option GithubInstallations → Option String
  discover_installation none = none
  discover_installation (some found) = elim (head? found.installations) [
    | none ↦ none
    | some id ↦ if ltb 0 found.total_count then some (github.to_text id) else none
  ]

  -- The body of the outer `try`: whatever it throws is replaced.
  unfoldable pub exchange : String → Option ExchangedUser
  exchange code = do
    client_id ← config.github_client_id
    client_secret ← config.github_client_secret
    answer ← github.request_token client_id client_secret code
    token ← grant_of answer
    profile ← github.get_user token.access_token
    some (record {
      token = token;
      user_profile = complete_email profile (github.get_emails token.access_token);
      installation_id = discover_installation (github.get_installations token.access_token);
    })

  unfoldable pub exchange_code_for_user : String → Act ExchangedUser
  unfolding exchange
  exchange_code_for_user code =
      require (exchange code) (bad_request "Failed to exchange GitHub code")
