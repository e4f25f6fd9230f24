-- ===== src/Repositories/Service.antt =====
-- apps/api/src/git/git.service.ts: the repositories of an installation, the files of one, and the
-- framework at a path of it. GitHub is a parameter: `none` is a request that throws.
use Prim.Native.String.{◌++◌ as append_text}
use code2cloud.Prelude.{
  ℕ, String, Bool, true, false, Option, none, some, List, [], ◌∷◌, ◌≡◌, ◌⊎◌, ◌&&◌, if◌then◌else◌,
  non_empty, or_else, map,
}
use code2cloud.Frameworks.{PackageJson, Detected, detect_framework}
use code2cloud.World.{Act, bad_request, thrown, pure, guard, require, ◌>>=◌, ◌>>◌}

-- git/common/type.ts, `RepoNode`: the fields that the query asks for and the code reads.
pub record RepoNode : Type 0 where
  pub database_id : ℕ
  pub name : String
  pub name_with_owner : String
  pub url : String
  pub ssh_url : String
  pub is_private : Bool
  pub updated_at : String
  pub default_branch : Option String
  pub primary_language : Option String
  pub package_json : Option String
  pub requirements : Option String

-- The commands are always the empty text.
pub record Repository : Type 0 where
  pub id : ℕ
  pub name : String
  pub full_name : String
  pub is_private : Bool
  pub url : String
  pub ssh_url : String
  pub clone_url : String
  pub language : Option String
  pub default_branch : String
  pub updated_at : String
  pub detected : Detected

pub data ItemKind : Type 0 where
  dir file symlink submodule : ItemKind

pub record TreeItem : Type 0 where
  pub name : String
  pub path : String
  pub kind : ItemKind
  pub sha : String

-- A directory, a file with its text, or anything else.
pub data Content : Type 0 where
  directory : List TreeItem → Content
  text : String → Content
  other : Content

-- The installations that the app has a client for, the requests of that client, and `a ≤ b` by
-- `localeCompare`.
pub record GithubFiles : Type 0 where
  pub has_client : String → Bool
  pub get_nodes : String → Option (List RepoNode)
  pub get_content : (installation owner repo path : String) → Option Content
  pub create_token : String → Option String
  pub locale_le : String → String → Bool
  pub locale_le_total : (a b : String) → (locale_le a b ≡ true) ⊎ (locale_le b a ≡ true)
  pub locale_le_trans :
      (a b c : String) → locale_le a b ≡ true → locale_le b c ≡ true → locale_le a c ≡ true

abbrev pub is_dir : ItemKind → Bool
is_dir dir = true
is_dir _ = false

abbrev pub is_file : ItemKind → Bool
is_file file = true
is_file _ = false

abbrev pub text_of : Option Content → Option String
text_of (some (text s)) = some s
text_of (some (directory items)) = none
text_of (some other) = none
text_of none = none

module _ ⦃json : PackageJson⦄ where
  abbrev pub repository_of : RepoNode → Repository
  repository_of node = record {
    id = node.database_id;
    name = node.name;
    full_name = node.name_with_owner;
    is_private = node.is_private;
    url = node.url;
    ssh_url = node.ssh_url;
    clone_url = append_text node.url ".git";
    language = non_empty node.primary_language;
    default_branch = or_else node.default_branch "main";
    updated_at = node.updated_at;
    detected = detect_framework node.package_json node.requirements;
  }

module _ ⦃github : GithubFiles⦄ where
  -- The comparison of two items is not positive.
  abbrev pub goes_first : TreeItem → TreeItem → Bool
  goes_first a b =
      if is_dir a.kind && is_file b.kind
      then true
      else if is_file a.kind && is_dir b.kind
      then false
      else github.locale_le a.name b.name

  -- `sort` by that comparison, which is stable.
  abbrev pub insert_item : TreeItem → List TreeItem → List TreeItem
  insert_item a [] = a ∷ []
  insert_item a (b ∷ items) =
      let rest = insert_item a items in if goes_first a b then a ∷ b ∷ items else b ∷ rest

  abbrev pub sort_items : List TreeItem → List TreeItem
  sort_items [] = []
  sort_items (a ∷ items) = insert_item a (sort_items items)

  abbrev pub tree_of : Content → List TreeItem
  tree_of (directory items) = sort_items items
  tree_of (text s) = []
  tree_of other = []

  -- A missing client is reported as it comes, outside the `try`.
  unfoldable pub get_repo_contents : (installation owner repo path : String) → Act (List TreeItem)
  get_repo_contents installation owner repo path = do
    guard (github.has_client installation) (thrown "Not Found")
    content ←
        require (github.get_content installation owner repo path)
          (bad_request "Could not fetch repo contents")
    pure (tree_of content)

  unfoldable pub get_installation_token : String → Act String
  get_installation_token installation = do
    guard (github.has_client installation) (bad_request "Failed to get installation token")
    require (github.create_token installation) (bad_request "Failed to get installation token")

module _ ⦃github : GithubFiles⦄ ⦃json : PackageJson⦄ where
  unfoldable pub list_repositories : String → Act (List Repository)
  list_repositories installation = do
    guard (github.has_client installation) (bad_request "Failed to fetch repositories.")
    nodes ← require (github.get_nodes installation) (bad_request "Failed to fetch repositories.")
    pure (map repository_of nodes)

  -- A request that fails counts as a missing file.
  unfoldable pub detect_framework_config : (installation owner repo path : String) → Act Detected
  detect_framework_config installation owner repo path = do
    guard (github.has_client installation) (thrown "Not Found")
    pure (
        detect_framework
          (text_of (github.get_content installation owner repo (append_text path "/package.json")))
          (text_of
            (github.get_content installation owner repo (append_text path "/requirements.txt"))))
