-- ===== src/Projects.antt =====
-- apps/api/src/projects/projects.service.ts: ProjectsService.
pub mod Create
pub mod Remove
use code2cloud.Prelude.{
  ℕ, String, Bool, true, false, not, Option, none, some, List, [], ◌∷◌, map, length, take, any,
  ◌==◌, ◌&&◌, nat_eq, if◌then◌else◌,
}
use code2cloud.Schema.{
  Project, EnvironmentVariable, Deployment, Domain, LogEntry, is_in_progress, is_active,
}
use code2cloud.Jobs.{ProjectCleanupJobData}
use code2cloud.Prisma.{Prisma}
use code2cloud.World.{
  Database, World, Act, thrown, pure, ◌>>=◌, ◌>>◌, get, when, require, for_each, set_projects,
  set_db,
}
use code2cloud.Encryption.{Crypto, decrypt}
use code2cloud.Queues.{add_project_cleanup_job, publish_cancel_signal}
use code2cloud.Deployments.{find_project, is_project_of}
use code2cloud.Webhooks.{is_current}

-- A project with what `findOne` and `findAll` include; the values of `findAll` are in clear.
pub record ProjectView : Type 0 where
  pub project : Project
  pub env_vars : List EnvironmentVariable
  pub domains : List Domain
  pub deployments : List Deployment

-- UpdateProjectDto: a field that is not given stays.
pub record UpdateProjectDto : Type 0 where
  pub name : Option String
  pub language : Option String
  pub framework : Option String
  pub root_directory : Option String
  pub install_command : Option String
  pub build_command : Option String
  pub run_command : Option String
  pub output_directory : Option String
  pub python_version : Option String
  pub git_repo_owner : Option String
  pub git_repo_name : Option String
  pub git_repo_id : Option ℕ
  pub git_branch : Option String
  pub git_repo_url : Option String
  pub git_clone_url : Option String
  pub auto_deploy : Option Bool

abbrev pub given : {A : Type 0} → Option A → A → A
given none old = old
given (some a) old = a

abbrev pub given_text : Option String → Option String → Option String
given_text none old = old
given_text (some a) old = some a

abbrev pub updated_project : ℕ → UpdateProjectDto → Project → Project
updated_project now dto p = record p {
  name = given dto.name p.name;
  language = given dto.language p.language;
  framework = given dto.framework p.framework;
  root_directory = given dto.root_directory p.root_directory;
  install_command = given_text dto.install_command p.install_command;
  build_command = given_text dto.build_command p.build_command;
  run_command = given_text dto.run_command p.run_command;
  output_directory = given_text dto.output_directory p.output_directory;
  python_version = given_text dto.python_version p.python_version;
  git_repo_owner = given dto.git_repo_owner p.git_repo_owner;
  git_repo_name = given dto.git_repo_name p.git_repo_name;
  git_repo_id = given dto.git_repo_id p.git_repo_id;
  git_branch = given dto.git_branch p.git_branch;
  git_clone_url = given dto.git_clone_url p.git_clone_url;
  git_repo_url = given dto.git_repo_url p.git_repo_url;
  auto_deploy = given dto.auto_deploy p.auto_deploy;
  updated_at = now;
}

module _ ⦃prisma : Prisma⦄ where
  -- The included relations: the latest deployments, as many as asked for.
  unfoldable pub view_of : ℕ → Database → Project → ProjectView
  view_of n db p = record {
    project = p;
    env_vars = prisma.find_many (λ (v : EnvironmentVariable). v.project_id == p.id) db.env_vars;
    domains = prisma.find_many (λ (d : Domain). d.project_id == p.id) db.domains;
    deployments = take n (
        prisma.order_desc (λ (d : Deployment). d.started_at)
          (prisma.find_many (λ (d : Deployment). d.project_id == p.id) db.deployments));
  }

  unfoldable pub find_one : String → String → Act ProjectView
  find_one id user_id = do p ← find_project user_id id; w ← get; pure (view_of 5 w.db p)

  unfoldable pub update : String → String → UpdateProjectDto → Act Project
  update id user_id dto = do
    v ← find_one id user_id
    w ← get
    set_projects
        (prisma.update (λ (p : Project). p.id == id) (updated_project w.now dto) w.db.projects)
    pure (updated_project w.now dto v.project)

  -- The deployments of a project that `remove` includes.
  unfoldable pub active_deployments : String → Database → List Deployment
  active_deployments id db = prisma.find_many (is_current id) db.deployments

  -- What goes with the row of a project: the relations are onDelete: Cascade.
  unfoldable pub delete_cascade : String → Database → Database
  delete_cascade id db = record db {
    projects = prisma.delete_where (λ (p : Project). p.id == id) db.projects;
    env_vars = prisma.delete_where (λ (v : EnvironmentVariable). v.project_id == id) db.env_vars;
    domains = prisma.delete_where (λ (d : Domain). d.project_id == id) db.domains;
    logs =
        prisma.delete_where
          (λ (l : LogEntry).
            any (λ (d : Deployment). (d.id == l.deployment_id) && (d.project_id == id))
              db.deployments)
          db.logs;
    deployments = prisma.delete_where (λ (d : Deployment). d.project_id == id) db.deployments;
  }

  -- The signals and the job by which the worker lets go of what the deployments hold.
  unfoldable pub release_active : Project → List Deployment → Act (Unit {0})
  release_active p active = do
    for_each active (λ d. when (is_in_progress d.status) (publish_cancel_signal d.id))
    when (not (nat_eq (length active) 0)) (
        add_project_cleanup_job (record {
          project_id = p.id;
          project_name = p.name;
          active_deployment_ids = map (λ (d : Deployment). d.id) active;
        }))

  unfoldable pub remove : String → String → Act Project
  remove id user_id = do
    p ← find_project user_id id
    w ← get
    release_active p (active_deployments id w.db)
    v ← get
    set_db (delete_cascade id v.db)
    pure p

module _ ⦃crypto : Crypto⦄ where
  -- The values in clear; one that cannot be decrypted is a throw.
  unfoldable pub decrypted_vars : List EnvironmentVariable → Option (List EnvironmentVariable)
  decrypted_vars [] = some []
  decrypted_vars (v ∷ vs) = elim (decrypt v.value) [
    | none ↦ none
    | some value ↦ elim (decrypted_vars vs) [
      | none ↦ none
      | some rest ↦ some (record v { value = value } ∷ rest)
    ]
  ]

  abbrev pub decrypted_views : List ProjectView → Option (List ProjectView)
  decrypted_views [] = some []
  decrypted_views (p ∷ ps) = elim (decrypted_vars p.env_vars) [
    | none ↦ none
    | some vars ↦ elim (decrypted_views ps) [
      | none ↦ none
      | some rest ↦ some (record p { env_vars = vars } ∷ rest)
    ]
  ]

  unfoldable pub find_all : ⦃prisma : Prisma⦄ → String → Act (List ProjectView)
  find_all ⦃prisma⦄ user_id = do
    w ← get
    let mine =
        prisma.order_desc (λ (p : Project). p.updated_at)
          (prisma.find_many (λ (p : Project). p.user_id == user_id) w.db.projects)
    require (decrypted_views (map (view_of 1 w.db) mine)) (thrown "decrypt")
