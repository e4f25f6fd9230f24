-- ===== src/Repositories/Routes.antt =====
-- apps/api/src/git/git.controller.ts: the routes to a user's GitHub accounts and repositories.
use code2cloud.Prelude.{
  String, Bool, false, Option, none, some, List, ◌==◌, ◌&&◌, any, find?, head?, map, truthy,
  non_empty,
}
use code2cloud.Schema.{GitAccount}
use code2cloud.Prisma.{Prisma}
use code2cloud.Frameworks.{PackageJson, Detected}
use code2cloud.World.{Act, bad_request, pure, get, require, ◌>>=◌}
use code2cloud.Repositories.Service.{
  GithubFiles, Repository, TreeItem, list_repositories, get_repo_contents, detect_framework_config,
}

pub record AccountView : Type 0 where
  pub id : String
  pub username : String
  pub avatar_url : Option String
  pub installation_id : Option String

pub record GitStatus : Type 0 where
  pub connected : Bool
  pub username : Option String
  pub avatar_url : Option String
  pub accounts : List AccountView

abbrev pub has_installation : GitAccount → Bool
has_installation a = truthy a.installation_id

abbrev pub is_own_github : String → GitAccount → Bool
is_own_github user_id a = a.user_id == user_id && a.provider == "github"

abbrev pub is_installation : String → Option String → Bool
is_installation installation none = false
is_installation installation (some i) = i == installation

abbrev pub is_installed_by : String → String → GitAccount → Bool
is_installed_by user_id installation a =
    is_own_github user_id a && is_installation installation a.installation_id

abbrev pub view_of_account : GitAccount → AccountView
view_of_account a = record {
  id = a.id;
  username = a.username;
  avatar_url = a.avatar_url;
  installation_id = a.installation_id;
}

-- `accounts.find((a) => a.installationId) || accounts[0]`
abbrev pub primary_of : List GitAccount → Option GitAccount
primary_of accounts = elim (find? has_installation accounts) [
  | none ↦ head? accounts
  | some a ↦ some a
]

abbrev pub username_of : Option GitAccount → Option String
username_of none = none
username_of (some a) = some a.username

abbrev pub avatar_of : Option GitAccount → Option String
avatar_of none = none
avatar_of (some a) = a.avatar_url

unfoldable pub status_of : List GitAccount → GitStatus
status_of accounts = record {
  connected = any has_installation accounts;
  username = username_of (primary_of accounts);
  avatar_url = avatar_of (primary_of accounts);
  accounts = map view_of_account accounts;
}

module _ ⦃prisma : Prisma⦄ where
  unfoldable pub get_status : String → Act GitStatus
  unfolding status_of
  get_status user_id = do
    w ← get
    pure (status_of (prisma.find_many (is_own_github user_id) w.db.git_accounts))

  unfoldable pub verify_installation : String → Option String → Act String
  verify_installation user_id query = do
    installation ← require (non_empty query) (bad_request "installationId is required")
    w ← get
    account ←
        require (prisma.find_first (is_installed_by user_id installation) w.db.git_accounts)
          (bad_request "GitHub account not found or access denied")
    pure installation

module _ ⦃prisma : Prisma⦄ ⦃github : GithubFiles⦄ where
  unfoldable pub get_repo_tree :
      (user_id : String) → Option String → (owner repo path : String) → Act (List TreeItem)
  get_repo_tree user_id query owner repo path = do
    installation ← verify_installation user_id query
    get_repo_contents installation owner repo path

module _ ⦃prisma : Prisma⦄ ⦃github : GithubFiles⦄ ⦃json : PackageJson⦄ where
  unfoldable pub list_repos : String → Option String → Act (List Repository)
  list_repos user_id query = do
    installation ← verify_installation user_id query
    list_repositories installation

  unfoldable pub detect_framework_route :
      (user_id : String) → Option String → (owner repo path : String) → Act Detected
  detect_framework_route user_id query owner repo path = do
    installation ← verify_installation user_id query
    detect_framework_config installation owner repo path
