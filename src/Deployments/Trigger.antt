-- ===== src/Deployments/Trigger.antt =====
-- apps/api/src/deployments/deployments.service.ts: the method `create`, which queues a deployment
-- of the head of the project's branch.
pub mod Steps
pub mod Env
use Prim.Native.String.{◌++◌ as append_text}
use mathlib.Core.Option
use code2cloud.Prelude.{
  String, Bool, true, false, not, Option, none, some, List, [], ◌∷◌, map, head?, any, length, ◌==◌,
  nat_eq, if◌then◌else◌, Dict, put, non_empty, truthy, or_else,
}
use code2cloud.Schema.{
  manual, GitAccount, Project, EnvironmentVariable, Deployment, Domain, SystemConfig,
  is_in_progress, is_production,
}
use code2cloud.Jobs.{BuildJobData, number_of}
use code2cloud.Prisma.{Prisma}
use code2cloud.World.{
  World, Act, bad_request, pure, throw, ◌>>=◌, ◌>>◌, get, guard, require, transaction, set_projects,
}
use code2cloud.Github.{GithubApi, CommitData, get_latest_commit}
use code2cloud.Encryption.{Crypto, decrypt}
use code2cloud.Queues.{add_build_job}
use code2cloud.Deployments.{
  find_project, create_deployment, matching_account, installed, build_config_of, with_python,
}

-- A variable that cannot be decrypted is logged and left out; only PRODUCTION ones are read.
abbrev pub add_decrypted : String → Option String → Dict String → Dict String
add_decrypted key none acc = acc
add_decrypted key (some value) acc = put key value acc

module _ ⦃crypto : Crypto⦄ where
  unfoldable pub production_env : Dict String → List EnvironmentVariable → Dict String
  production_env acc [] = acc
  production_env acc (v ∷ vs) =
      production_env
        (if any is_production v.targets then add_decrypted v.key (decrypt v.value) acc else acc) vs

abbrev pub github_clone_url : Project → String
github_clone_url p =
    append_text "https://github.com/"
      (append_text p.git_repo_owner (append_text "/" (append_text p.git_repo_name ".git")))

module _ ⦃prisma : Prisma⦄ where
  -- the domains of a project, oldest first
  unfoldable pub domains_of : Project → List Domain → List Domain
  domains_of p table =
      prisma.order_asc (λ (d : Domain). d.created_at)
        (prisma.find_many (λ (d : Domain). d.project_id == p.id) table)

  -- findFirst where { projectId } orderBy startedAt desc
  unfoldable pub latest_deployment : String → List Deployment → Option Deployment
  latest_deployment project_id table = head? (
      prisma.order_desc (λ (d : Deployment). d.started_at)
        (prisma.find_many (λ (d : Deployment). d.project_id == project_id) table))

  abbrev pub is_busy : Option Deployment → Bool
  is_busy none = false
  is_busy (some d) = is_in_progress d.status

  -- project.update: configChanged and updatedAt
  unfoldable pub touch_project : String → Bool → Act (Unit {0})
  touch_project project_id changed = do
    w ← get
    set_projects (
        prisma.update (λ (p : Project). p.id == project_id)
          (λ p. record p { config_changed = changed; updated_at = w.now }) w.db.projects)

  -- the transaction of `create`
  unfoldable pub record_deployment : String → Project → CommitData → Act Deployment
  record_deployment user_id p commit = transaction do
    w ← get
    let config = prisma.find_first (λ (c : SystemConfig). c.user_id == user_id) w.db.configs
    d ← create_deployment (record {
      project_id = p.id;
      initiator_id = user_id;
      deployment_url = Option.map (λ (d : Domain). d.name) (head? (domains_of p w.db.domains));
      branch = p.git_branch;
      commit = commit;
      region = config;
      trigger = manual;
    })
    touch_project p.id false
    pure d

-- The checks before anything is written: the project and the account that GitHub is asked with.
module _ ⦃prisma : Prisma⦄ where
  unfoldable pub check_create : String → String → Act (Project × String)
  check_create user_id project_id = do
    p ← find_project user_id project_id
    w ← get
    let accounts = prisma.find_many (λ (a : GitAccount). a.user_id == user_id) w.db.git_accounts
    guard (not (nat_eq (length accounts) 0)) (bad_request "No linked GitHub accounts found.")
    guard (not (is_busy (latest_deployment project_id w.db.deployments)))
        (bad_request "A deployment is already in progress for this project.")
    account ← require (matching_account p.git_repo_owner accounts) (bad_request "no account")
    guard (installed account.installation_id)
        (bad_request "Selected GitHub account is not installed.")
    pure (p, or_else account.installation_id "")

module _ ⦃prisma : Prisma⦄ ⦃crypto : Crypto⦄ ⦃github : GithubApi⦄ where
  unfoldable pub job_of : World → Project → String → CommitData → Deployment → BuildJobData
  job_of w p installation_id commit d = record {
    deployment_id = d.id;
    project_id = p.id;
    project_name = p.name;
    git_url = github_clone_url p;
    installation_id = number_of installation_id;
    branch = p.git_branch;
    commit_hash = commit.sha;
    root_directory = non_empty (some p.root_directory);
    build_config = build_config_of p;
    domains = map (λ (d : Domain). d.name) (domains_of p w.db.domains);
    env_vars = with_python p.python_version (
        production_env []
          (prisma.find_many (λ (v : EnvironmentVariable). v.project_id == p.id) w.db.env_vars));
    previous_deployment_id = none;
  }

  unfoldable pub create : String → String → Act Deployment
  create user_id project_id = do
    (p, installation_id) ← check_create user_id project_id
    w ← get
    let commit = get_latest_commit installation_id p.git_repo_owner p.git_repo_name p.git_branch
    d ← record_deployment user_id p commit
    add_build_job (job_of w p installation_id commit d)
    pure d
