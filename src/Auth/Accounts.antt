-- ===== src/Auth/Accounts.antt =====
-- apps/api/src/auth/auth.service.ts: signing up, and signing in by Google or GitHub.
use code2cloud.Prelude.{
  String, Bool, true, false, Option, none, some, List, [], ◌∷◌, ◌==◌, ◌&&◌, any, map, truthy,
  non_empty, or_else, if◌then◌else◌,
}
use code2cloud.Schema.{User, GitAccount, SystemConfig, default_config}
use code2cloud.Prisma.{Prisma}
use code2cloud.World.{
  Database, Act, unauthorized, forbidden, thrown, pure, ◌>>=◌, ◌>>◌, get, guard, require, set_users,
  set_git_accounts, set_configs,
}
use code2cloud.Auth.{AuthApi, Tokens, has_user_id, issue}

pub record SignUpDto : Type 0 where
  pub email : String
  pub password : String
  pub name : Option String

pub record OAuthUser : Type 0 where
  pub email : String
  pub name : String
  pub picture : String
  pub provider : String

-- `refreshToken` may be missing, or null.
pub record CompleteGithubPayload : Type 0 where
  pub github_id : String
  pub username : String
  pub email : Option String
  pub name : Option String
  pub avatar_url : Option String
  pub access_token : String
  pub refresh_token : Option (Option String)

abbrev pub has_email : String → User → Bool
has_email email u = u.email == email

-- provider_providerId: { provider: "github", providerId: githubId }
abbrev pub is_link : String → GitAccount → Bool
is_link github_id a = (a.provider == "github") && (a.provider_id == github_id)

abbrev pub is_none : Option User → Bool
is_none none = true
is_none (some u) = false

abbrev pub user_ids : Database → List String
user_ids db = map (λ (u : User). u.id) db.users

-- The row of a user, without a refresh token.
abbrev pub user_row : (id email : String) → (password name avatar provider : Option String) → User
user_row id email password name avatar provider = record {
  id = id;
  email = email;
  password = password;
  name = name;
  avatar = avatar;
  provider = provider;
  hashed_refresh_token = none;
}

abbrev pub new_account : String → CompleteGithubPayload → Option String → String → GitAccount
new_account id payload installation user_id = record {
  id = id;
  provider = "github";
  provider_id = payload.github_id;
  username = payload.username;
  avatar_url = payload.avatar_url;
  installation_id = non_empty installation;
  access_token = payload.access_token;
  refresh_token = elim payload.refresh_token [ none ↦ none | some t ↦ t ];
  user_id = user_id;
}

abbrev pub relinked : CompleteGithubPayload → Option String → String → GitAccount → GitAccount
relinked payload installation user_id a = record a {
  user_id = user_id;
  access_token = payload.access_token;
  refresh_token = elim payload.refresh_token [ none ↦ a.refresh_token | some t ↦ t ];
  username = payload.username;
  avatar_url = payload.avatar_url;
  installation_id = if truthy installation then installation else a.installation_id;
}

module _ ⦃prisma : Prisma⦄ where
  abbrev pub upserted :
      CompleteGithubPayload
      → Option String
      → String
      → List GitAccount
      → Option GitAccount
      → List GitAccount
  upserted payload installation user_id t none =
      prisma.create
        (new_account (prisma.uuid (map (λ (a : GitAccount). a.id) t)) payload installation user_id
          ∷ [])
        t
  upserted payload installation user_id t (some a) =
      prisma.update (is_link payload.github_id) (relinked payload installation user_id) t

  -- The database rejects the account of a user that it does not have.
  unfoldable pub upsert_account : CompleteGithubPayload → Option String → String → Act (Unit {0})
  upsert_account payload installation user_id = do
    w ← get
    guard (any (has_user_id user_id) w.db.users) (thrown "Foreign key constraint violated")
    set_git_accounts (
        upserted payload installation user_id w.db.git_accounts
          (prisma.find_first (is_link payload.github_id) w.db.git_accounts))

  unfoldable pub create_user :
      (email : String) (password name avatar provider : Option String) → Act User
  create_user email password name avatar provider = do
    w ← get
    let row = user_row (prisma.uuid (user_ids w.db)) email password name avatar provider
    set_users (prisma.create (row ∷ []) w.db.users)
    pure row

  -- The merged row is not read again.
  unfoldable pub merge_user : CompleteGithubPayload → User → Act User
  merge_user payload u = do
    w ← get
    set_users (
        prisma.update (has_user_id u.id)
          (λ v. record v {
            provider = some "github";
            avatar = if truthy payload.avatar_url then payload.avatar_url else v.avatar;
          })
          w.db.users)
    pure u

  -- The user of the account, or of the address.
  abbrev pub owner_of : Database → Option GitAccount → Option User
  owner_of db none = none
  owner_of db (some a) = prisma.find_first (has_user_id a.user_id) db.users

  abbrev pub user_or : Database → String → Option User → Option User
  user_or db email none = prisma.find_first (has_email email) db.users
  user_or db email (some u) = some u

  abbrev pub github_user : CompleteGithubPayload → String → Database → Option User
  github_user payload email db =
      user_or db email (owner_of db (prisma.find_first (is_link payload.github_id) db.git_accounts))

  abbrev pub user_for : CompleteGithubPayload → String → Option User → Act User
  user_for payload email none =
      create_user email none (some (or_else payload.name payload.username)) payload.avatar_url
        (some "github")
  user_for payload email (some u) = merge_user payload u

module _ ⦃prisma : Prisma⦄ ⦃api : AuthApi⦄ where
  unfoldable pub sign_up : SignUpDto → Act Tokens
  sign_up dto = do
    w ← get
    guard (is_none (prisma.find_first (has_email dto.email) w.db.users))
        (forbidden "Credentials taken")
    user ← create_user dto.email (some (api.hash_password dto.password)) dto.name none none
    w' ← get
    set_configs (
        prisma.create
          (default_config (prisma.uuid (map (λ (c : SystemConfig). c.id) w'.db.configs)) user.id
            ∷ [])
          w'.db.configs)
    issue user

  abbrev pub oauth_user : OAuthUser → Option User → Act User
  oauth_user profile none =
      create_user profile.email none (some profile.name) (some profile.picture)
        (some profile.provider)
  oauth_user profile (some u) = do
    w ← get
    set_users (
        prisma.update (has_user_id u.id)
          (λ v. record v { avatar = some profile.picture; provider = some profile.provider })
          w.db.users)
    pure (record u { avatar = some profile.picture; provider = some profile.provider })

  unfoldable pub validate_oauth_login : OAuthUser → Act Tokens
  validate_oauth_login profile = do
    w ← get
    user ← oauth_user profile (prisma.find_first (has_email profile.email) w.db.users)
    issue user

  -- A user that is signed in links the account.
  unfoldable pub link_account : CompleteGithubPayload → Option String → String → Act Tokens
  link_account payload installation user_id = do
    upsert_account payload installation user_id
    w ← get
    user ← require (prisma.find_first (has_user_id user_id) w.db.users) (thrown "TypeError")
    issue user

  unfoldable pub login_by_github : CompleteGithubPayload → Option String → Act Tokens
  login_by_github payload installation = do
    email ←
        require (non_empty payload.email) (unauthorized "GitHub account must have a public email")
    w ← get
    user ← user_for payload email (github_user payload email w.db)
    upsert_account payload installation user.id
    issue user

  abbrev pub callback_for : CompleteGithubPayload → Option String → Option String → Act Tokens
  callback_for payload installation none = login_by_github payload installation
  callback_for payload installation (some user_id) = link_account payload installation user_id

  unfoldable pub process_github_callback :
      CompleteGithubPayload → (installation current_user : Option String) → Act Tokens
  process_github_callback payload installation current_user =
      callback_for payload installation (non_empty current_user)
