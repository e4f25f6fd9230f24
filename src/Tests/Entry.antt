-- ===== src/Tests/Entry.antt =====
-- Runs of the sign-in by GitHub and of the routes to repositories.
use code2cloud.Prelude.{true, ◌≡◌, ◌↔◌, refl, some, none, List, In, length}
use code2cloud.World.{done}
use code2cloud.Guards.Key.{HasKey}
use code2cloud.Api.Calls.{to_deployments, deployments_cancel, cleanup, handle, handle_internal}
use code2cloud.Api.Entry.{ApiRequest, IsUser, Guarded, serve, serve_internal, serve_lem}
use code2cloud.GithubSignIn.Exchange.{Config}
use code2cloud.GithubSignIn.Redirects.{CallbackQuery, github_callback}
use code2cloud.GithubSignIn.Landing.{Landing, github_callback_lem}
use code2cloud.Repositories.Service.{
  TreeItem, list_repositories, get_repo_contents, detect_framework_config,
}
use code2cloud.Repositories.Routes.{list_repos, get_repo_tree, detect_framework_route}
use code2cloud.Repositories.Access.{Access, routes_lem}
use code2cloud.Repositories.Tree.{IsListing, get_repo_contents_lem}
use code2cloud.Tests.Client.{list_client, plain_auth, escape_cipher, silent_github}
use code2cloud.Tests.Grouping.{list_groups}
use code2cloud.Tests.Sites.{talking_github, plain_jwt, vite_json, small_tree, two_items}
use code2cloud.Tests.Rows.{idle_world, busy_world, short_config}

abbrev config : Config
config = record {
  github_client_id = some "id";
  github_client_secret = some "secret";
  jwt_secret = some "key";
  app_url = "https://code2cloud.example.org";
}

abbrev with_code : CallbackQuery
with_code = record { code = some "c1"; installation_id = some "43"; access_cookie = none }

github_callback_lem_example :
    Landing config with_code idle_world (github_callback config with_code idle_world)
github_callback_lem_example = github_callback_lem config with_code idle_world

routes_lem_example :
    Access "u1" (some "42") idle_world list_repositories (list_repos "u1" (some "42") idle_world)
    × Access "u1"
        (some "42")
        idle_world
        (λ i. get_repo_contents i "ada" "engine" "")
        (get_repo_tree "u1" (some "42") "ada" "engine" "" idle_world)
    × Access "u1"
        (some "42")
        idle_world
        (λ i. detect_framework_config i "ada" "engine" "")
        (detect_framework_route "u1" (some "42") "ada" "engine" "" idle_world)
routes_lem_example = routes_lem "u1" (some "42") idle_world "ada" "engine" ""

get_repo_contents_lem_example :
    (tree : List TreeItem) × (get_repo_contents "42" "ada" "engine" "" idle_world
      ≡ done tree idle_world)
    × IsListing tree
    × (length tree ≡ 2)
    × ((x : TreeItem) → In x tree ↔ In x two_items)
get_repo_contents_lem_example =
    get_repo_contents_lem "42" "ada" "engine" "" two_items idle_world refl refl (refl, (refl, tt))

abbrev cancel_request : ApiRequest
cancel_request = record {
  incoming = record { worker_api_key = none; jwt_allows = true };
  subject = "u1";
}

serve_lem_example :
    Guarded
      (IsUser cancel_request)
      (handle (to_deployments (deployments_cancel "d2")) "u1")
      busy_world
      (serve (some "key") cancel_request (to_deployments (deployments_cancel "d2")) busy_world)
    × Guarded
        (HasKey (some "key") cancel_request.incoming)
        (handle_internal cleanup)
        busy_world
        (serve_internal (some "key") cancel_request cleanup busy_world)
serve_lem_example =
    serve_lem (some "key") cancel_request busy_world (to_deployments (deployments_cancel "d2"))
      cleanup
