-- ===== src/Tests/Sites.antt =====
-- A GitHub that answers, for the sign-in and the routes to repositories.
use code2cloud.Prelude.{true, some, none, inl, refl, List, [], ◌∷◌, ◌==◌}
use code2cloud.Frameworks.{PackageJson}
use code2cloud.GithubSignIn.Exchange.{GithubOauth, granted}
use code2cloud.GithubSignIn.Redirects.{JwtService}
use code2cloud.Repositories.Service.{GithubFiles, RepoNode, TreeItem, dir, file, directory}

instance abbrev pub talking_github : GithubOauth
talking_github = record {
  request_token =
      λ client secret code. some (granted (record { access_token = "t2"; refresh_token = none }));
  get_user = λ token.
      some (record { id = 78; login = "ada"; avatar_url = none; name = none; email = none });
  get_emails =
      λ token. some (record { email = "ada@example.org"; primary = true; verified = true } ∷ []);
  get_installations = λ token. some (record { total_count = 1; installations = 43 ∷ [] });
  to_text = λ n. "78";
}

instance abbrev pub plain_jwt : JwtService
plain_jwt = record { verify = λ secret token. some token }

-- Every package depends on vite.
instance abbrev pub vite_json : PackageJson
vite_json = record { dependencies_of = λ text. some (λ name. name == "vite") }

abbrev pub engine_node : RepoNode
engine_node = record {
  database_id = 5;
  name = "engine v2";
  name_with_owner = "ada/engine v2";
  url = "https://git.example.org/ada/engine";
  ssh_url = "git@git.example.org:ada/engine";
  is_private = true;
  updated_at = "2024-01-01";
  default_branch = none;
  primary_language = none;
  package_json = some "{}";
  requirements = none;
}

abbrev pub two_items : List TreeItem
two_items =
    record { name = "a.ts"; path = "a.ts"; kind = file; sha = "1" }
    ∷ record { name = "src"; path = "src"; kind = dir; sha = "2" }
    ∷ []

-- All names stand at the same place in the order.
instance abbrev pub small_tree : GithubFiles
small_tree = record {
  has_client = λ installation. true;
  get_nodes = λ installation. some (engine_node ∷ []);
  get_content = λ installation owner repo path. some (directory two_items);
  create_token = λ installation. some "t3";
  locale_le = λ a b. true;
  locale_le_total = λ a b. inl refl;
  locale_le_trans = λ a b c h k. refl;
}
