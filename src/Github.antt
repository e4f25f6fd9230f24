-- ===== src/Github.antt =====
-- apps/api/src/git/git.service.ts: the commit that a deployment starts from.
-- The GitHub API is a parameter: `none` is a call that throws.
use code2cloud.Prelude.{String, Option, none, some, true, false, ◌==◌}

-- The parts of a branch that `getLatestCommit` reads: the commit's hash and message, the name of
-- its author and the login of the author's account.
pub record BranchHead : Type 0 where
  pub sha : String
  pub message : String
  pub author_name : Option String
  pub author_login : Option String

pub record GithubApi : Type 0 where
  pub get_branch : (installation_id owner repo branch : String) → Option BranchHead

pub record CommitData : Type 0 where
  pub sha : String
  pub message : String
  pub author : Option String

abbrev pub name_or_login : Option String → Option String → Option String
name_or_login none login = login
name_or_login (some name) login = elim (name == "") [ true ↦ login | false ↦ some name ]

abbrev pub commit_of : Option BranchHead → CommitData
commit_of none = record { sha = "HEAD"; message = "Initial deployment"; author = some "System" }
commit_of (some head) = record {
  sha = head.sha;
  message = head.message;
  author = name_or_login head.author_name head.author_login;
}

-- getLatestCommit: a failed call falls back to "HEAD".
abbrev pub get_latest_commit : ⦃github : GithubApi⦄ → String → String → String → String → CommitData
get_latest_commit ⦃github⦄ installation_id owner repo branch =
    commit_of (github.get_branch installation_id owner repo branch)
