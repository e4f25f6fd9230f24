-- ===== src/GithubSignIn/Redirects.antt =====
-- apps/api/src/auth/auth.controller.ts: where the browser is sent by the routes of Google and GitHub.
use Prim.Native.String.{◌++◌ as append_text}
use code2cloud.Prelude.{String, Option, none, some, non_empty}
use code2cloud.Prisma.{Prisma}
use code2cloud.World.{World, Outcome, done, fail, Act, ◌>>=◌, pure}
use code2cloud.Auth.{AuthApi, Tokens}
use code2cloud.Auth.Accounts.{
  CompleteGithubPayload, OAuthUser, validate_oauth_login, process_github_callback,
}
use code2cloud.GithubSignIn.Exchange.{
  GithubOauth, Config, ExchangedUser, exchange_code_for_user, or_some,
}

-- `jwtService.verify`: the subject of a token that is valid under the secret; `none` is a throw, or
-- a token without a subject.
pub record JwtService : Type 0 where
  pub verify : (secret token : String) → Option String

pub record CallbackQuery : Type 0 where
  pub code : Option String
  pub installation_id : Option String
  pub access_cookie : Option String

-- `installationId || discoveredId`.
abbrev pub final_installation : Option String → Option String → Option String
final_installation given discovered = or_some (non_empty given) discovered

module _ (config : Config) where
  abbrev pub page : String → String
  page path = append_text config.app_url path

  abbrev pub tokens_page : Tokens → String
  tokens_page tokens = page (
      append_text "/auth/callback?accessToken="
        (append_text tokens.access_token (append_text "&refreshToken=" tokens.refresh_token)))

  abbrev pub redirect_for : Option String → Tokens → String
  redirect_for none tokens = tokens_page tokens
  redirect_for (some installation) tokens = page "/auth/popup-close"

module _ ⦃github : GithubOauth⦄ where
  abbrev pub payload_of : ExchangedUser → CompleteGithubPayload
  payload_of found = record {
    github_id = github.to_text found.user_profile.id;
    username = found.user_profile.login;
    email = found.user_profile.email;
    name = found.user_profile.name;
    avatar_url = found.user_profile.avatar_url;
    access_token = found.token.access_token;
    refresh_token = found.token.refresh_token;
  }

module _ ⦃jwt : JwtService⦄ where
  abbrev pub subject_of : Option String → String → Option String
  subject_of none cookie = none
  subject_of (some secret) cookie = jwt.verify secret cookie

  -- The user of the cookie; a token that is not valid is ignored.
  abbrev pub current_user_of : Config → Option String → Option String
  current_user_of config cookie = elim (non_empty cookie) [
    | none ↦ none
    | some token ↦ subject_of config.jwt_secret token
  ]

module _ ⦃prisma : Prisma⦄ ⦃api : AuthApi⦄ where
  unfoldable pub google_auth_redirect : Config → OAuthUser → Act String
  google_auth_redirect config user = do
    tokens ← validate_oauth_login user
    pure (tokens_page config tokens)

module _ ⦃prisma : Prisma⦄ ⦃api : AuthApi⦄ ⦃github : GithubOauth⦄ ⦃jwt : JwtService⦄
    (config : Config) where
  unfoldable pub sign_in_by_code : CallbackQuery → String → Act String
  sign_in_by_code query code = do
    found ← exchange_code_for_user config code
    tokens ←
        process_github_callback (payload_of found)
          (final_installation query.installation_id found.installation_id)
          (current_user_of config query.access_cookie)
    pure (redirect_for config (non_empty query.installation_id) tokens)

  -- `catch`: what failed is only logged.
  abbrev pub or_auth_failed : Outcome String → String × World
  or_auth_failed (done url w) = (url, w)
  or_auth_failed (fail e w) = (page config "/auth?error=auth_failed", w)

  -- The address of the answer's redirect, and the world afterwards.
  unfoldable pub github_callback : CallbackQuery → World → String × World
  unfolding sign_in_by_code
  github_callback query w = elim (non_empty query.code) [
    | none ↦ (page config "/auth?error=no_code", w)
    | some code ↦ or_auth_failed (sign_in_by_code query code w)
  ]
