-- ===== src/Projects/Create.antt =====
-- apps/api/src/projects/projects.service.ts: the method `create`, which makes a project with its
-- variables, its first deployment and its domain, and queues the build, in one transaction.
pub mod Atomic
use code2cloud.Prelude.{
  ℕ, suc, String, Bool, true, false, not, Option, none, some, List, [], ◌∷◌, ◌++◌, map, length,
  ◌==◌, nat_eq, are_distinct, Dict, put, non_empty, or_else,
}
use code2cloud.Schema.{
  production, preview, development, pending, manual, GitAccount, Project, EnvironmentVariable,
  Deployment, Domain, SystemConfig,
}
use code2cloud.Jobs.{BuildJobData, number_of}
use code2cloud.Prisma.{Prisma}
use code2cloud.World.{
  World, Act, bad_request, thrown, pure, ◌>>=◌, ◌>>◌, get, guard, require, transaction,
  set_projects, set_env_vars, set_domains,
}
use code2cloud.Github.{GithubApi, CommitData, get_latest_commit}
use code2cloud.Encryption.{Crypto, encrypt}
use code2cloud.Queues.{add_build_job}
use code2cloud.Deployments.{
  create_deployment, matching_account, installed, build_config_of, with_python,
}
use code2cloud.Url.{UrlConfig, generate_deployment_url}
use code2cloud.Projects.{ProjectView, find_one, given}

pub record EnvVarDto : Type 0 where
  pub key : String
  pub value : String

-- CreateProjectDto; without `envVars` the list is empty.
pub record CreateProjectDto : Type 0 where
  pub name : String
  pub language : String
  pub framework : Option String
  pub root_directory : Option String
  pub install_command : Option String
  pub build_command : Option String
  pub run_command : Option String
  pub output_directory : Option String
  pub python_version : Option String
  pub git_repo_owner : String
  pub git_repo_name : String
  pub git_repo_id : ℕ
  pub git_branch : String
  pub git_repo_url : String
  pub git_clone_url : String
  pub env_vars : List EnvVarDto

abbrev pub new_project : String → ℕ → String → CreateProjectDto → Project
new_project id now user_id dto = record {
  id = id;
  name = dto.name;
  language = dto.language;
  framework = given dto.framework "other";
  root_directory = given dto.root_directory "./";
  install_command = dto.install_command;
  build_command = dto.build_command;
  run_command = dto.run_command;
  output_directory = dto.output_directory;
  python_version = dto.python_version;
  git_repo_owner = dto.git_repo_owner;
  git_repo_name = dto.git_repo_name;
  git_repo_id = dto.git_repo_id;
  git_branch = dto.git_branch;
  git_clone_url = dto.git_clone_url;
  git_repo_url = dto.git_repo_url;
  config_changed = false;
  auto_deploy = true;
  online_status = pending;
  user_id = user_id;
  created_at = now;
  updated_at = now;
}

-- The variables as `{ ...acc, [key]: value }` collects them.
abbrev pub plain_env : Dict String → List EnvVarDto → Dict String
plain_env acc [] = acc
plain_env acc (v ∷ vs) = plain_env (put v.key v.value acc) vs

module _ ⦃prisma : Prisma⦄ ⦃crypto : Crypto⦄ where
  -- Encrypted rows; the n-th draw is that of the first, and each id differs from those before.
  unfoldable pub new_vars : List String → String → ℕ → List EnvVarDto → List EnvironmentVariable
  new_vars ids project_id n [] = []
  new_vars ids project_id n (v ∷ vs) =
      let id = prisma.uuid ids in
      record {
        id = id;
        key = v.key;
        value = encrypt n v.value;
        targets = production ∷ preview ∷ development ∷ [];
        project_id = project_id;
      }
      ∷ new_vars (id ∷ ids) project_id (suc n) vs

  -- The name is free, and an account of the user is installed.
  unfoldable pub check_new_project : String → CreateProjectDto → Act String
  check_new_project user_id dto = do
    w ← get
    let taken = prisma.find_first (λ (p : Project). p.name == dto.name) w.db.projects
    guard (elim taken [ none ↦ true | some _ ↦ false ])
        (bad_request "Project name is already taken. Please choose another.")
    let accounts = prisma.find_many (λ (a : GitAccount). a.user_id == user_id) w.db.git_accounts
    guard (not (nat_eq (length accounts) 0)) (bad_request "No linked GitHub accounts found.")
    account ← require (matching_account dto.git_repo_owner accounts) (bad_request "no account")
    guard (installed account.installation_id)
        (bad_request "Selected GitHub account is not installed.")
    pure (or_else account.installation_id "")

  unfoldable pub job_of_new :
      String → CreateProjectDto → String → CommitData → Project → Deployment → BuildJobData
  job_of_new url dto installation_id commit p d = record {
    deployment_id = d.id;
    project_id = p.id;
    project_name = p.name;
    git_url = dto.git_clone_url;
    installation_id = number_of installation_id;
    branch = p.git_branch;
    commit_hash = commit.sha;
    root_directory = non_empty (some p.root_directory);
    build_config = build_config_of p;
    domains = url ∷ [];
    env_vars = with_python dto.python_version (plain_env [] dto.env_vars);
    previous_deployment_id = none;
  }

  -- The body of the transaction.
  unfoldable pub make_project :
      String → CreateProjectDto → String → String → CommitData → Act Project
  make_project url dto user_id installation_id commit = do
    w ← get
    let config = prisma.find_first (λ (c : SystemConfig). c.user_id == user_id) w.db.configs
    let p = new_project (prisma.uuid (map (λ (p : Project). p.id) w.db.projects)) w.now user_id dto
    set_projects (prisma.create (p ∷ []) w.db.projects)
    guard (are_distinct (map (λ (v : EnvVarDto). v.key) dto.env_vars))
        (thrown "Unique constraint failed on the fields: (`projectId`,`key`)")
    let var_ids = map (λ (v : EnvironmentVariable). v.id) w.db.env_vars
    set_env_vars (prisma.create (new_vars var_ids p.id 0 dto.env_vars) w.db.env_vars)
    d ← create_deployment (record {
      project_id = p.id;
      initiator_id = user_id;
      deployment_url = some url;
      branch = dto.git_branch;
      commit = commit;
      region = config;
      trigger = manual;
    })
    let same_address = prisma.find_first (λ (d : Domain). d.name == url) w.db.domains
    guard (elim same_address [ none ↦ true | some _ ↦ false ])
        (thrown "Unique constraint failed on the fields: (`name`)")
    set_domains (
        prisma.create
          (record {
            id = prisma.uuid (map (λ (d : Domain). d.id) w.db.domains);
            name = url;
            status = pending;
            kind = production;
            error_text = none;
            project_id = p.id;
            created_at = w.now;
          }
            ∷ [])
          w.db.domains)
    add_build_job (job_of_new url dto installation_id commit p d)
    pure p

  unfoldable pub create :
      ⦃github : GithubApi⦄ → ⦃config : UrlConfig⦄ → String → CreateProjectDto → Act ProjectView
  create ⦃github⦄ ⦃config⦄ user_id dto = do
    installation_id ← check_new_project user_id dto
    let commit =
        get_latest_commit installation_id dto.git_repo_owner dto.git_repo_name dto.git_branch
    p ←
        transaction
          (make_project (generate_deployment_url dto.name) dto user_id installation_id commit)
    find_one p.id user_id
