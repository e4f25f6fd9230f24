-- ===== src/Deployments.antt =====
-- apps/api/src/deployments/deployments.service.ts: DeploymentsService, one action for each method.
pub mod Trigger
pub mod Cancel
pub mod Paging
use Prim.Native.String.{◌++◌ as append_text}
use mathlib.Core.Option
use code2cloud.Prelude.{
  ℕ, String, Bool, true, false, not, Option, none, some, List, [], ◌∷◌, map, head?, last?, find?,
  take, any, length, min, ◌==◌, ◌&&◌, nat_eq, ltb, if◌then◌else◌, Dict, put, non_empty, truthy,
  or_else,
}
use code2cloud.Prelude.Int.{floor_div_sub}
use code2cloud.Schema.{
  DeploymentStatus, queued, building, deploying, ready, failed, canceled, expired, superseded,
  production, manual, DeploymentTrigger, LogSource, build, runtime, system, GitAccount, Project,
  EnvironmentVariable, Deployment, Domain, SystemConfig, LogEntry, is_in_progress, is_production,
}
use code2cloud.Jobs.{BuildConfig, BuildJobData, number_of}
use code2cloud.Prisma.{Prisma}
use code2cloud.World.{
  Database, World, Act, bad_request, not_found, pure, throw, ◌>>=◌, ◌>>◌, get, guard, require,
  transaction, set_deployments, set_projects,
}
use code2cloud.Github.{GithubApi, CommitData, get_latest_commit}
use code2cloud.Encryption.{Crypto, decrypt}
use code2cloud.Queues.{add_build_job, publish_cancel_signal}

-- `project: { userId }` in the where of a deployment.
abbrev pub project_of_user : Database → String → String → Bool
project_of_user db user_id project_id =
    any (λ (p : Project). (p.id == project_id) && (p.user_id == user_id)) db.projects

abbrev pub is_owned : Database → String → String → Deployment → Bool
is_owned db user_id id d = (d.id == id) && project_of_user db user_id d.project_id

abbrev pub is_project_of : String → String → Project → Bool
is_project_of user_id project_id p = (p.id == project_id) && (p.user_id == user_id)

abbrev pub has_id : String → Deployment → Bool
has_id id d = d.id == id

abbrev pub status_text : DeploymentStatus → String
status_text queued = "QUEUED"
status_text building = "BUILDING"
status_text deploying = "DEPLOYING"
status_text ready = "READY"
status_text failed = "FAILED"
status_text canceled = "CANCELED"
status_text expired = "EXPIRED"
status_text superseded = "SUPERSEDED"

abbrev pub status_eq : DeploymentStatus → DeploymentStatus → Bool
status_eq a b = status_text a == status_text b

abbrev pub source_text : LogSource → String
source_text build = "BUILD"
source_text runtime = "RUNTIME"
source_text system = "SYSTEM"

abbrev pub installed : Option String → Bool
installed id = truthy id

-- The account whose name is the repository's owner, otherwise the first.
abbrev pub matching_account : String → List GitAccount → Option GitAccount
matching_account owner accounts = elim (find? (λ (a : GitAccount). a.username == owner) accounts) [
  | some a ↦ some a
  | none ↦ head? accounts
]

-- What a new deployment is created from; the other columns get their defaults.
pub record NewDeployment : Type 0 where
  pub project_id : String
  pub initiator_id : String
  pub deployment_url : Option String
  pub branch : String
  pub commit : CommitData
  pub region : Option SystemConfig
  pub trigger : DeploymentTrigger

abbrev pub new_deployment : String → ℕ → NewDeployment → Deployment
new_deployment id now n = record {
  id = id;
  status = queued;
  environment = production;
  is_success = false;
  commit_hash = n.commit.sha;
  commit_message = some n.commit.message;
  commit_author = n.commit.author;
  branch = n.branch;
  container_image = none;
  deployment_url = n.deployment_url;
  deployment_region =
      or_else (Option.map (λ (c : SystemConfig). c.default_region) n.region) "us-ashburn-1";
  started_at = now;
  finished_at = none;
  duration = none;
  project_id = n.project_id;
  initiator_id = some n.initiator_id;
  trigger = n.trigger;
}

-- The build settings of a project, as a job carries them.
abbrev pub build_config_of : Project → BuildConfig
build_config_of p = record {
  install_command = non_empty p.install_command;
  build_command = non_empty p.build_command;
  run_command = non_empty p.run_command;
  output_dir = non_empty p.output_directory;
  framework = p.framework;
}

-- `{ ...envVars, ...(pythonVersion ? { RAILPACK_PYTHON_VERSION: … } : {}) }`.
abbrev pub with_python : Option String → Dict String → Dict String
with_python none vars = vars
with_python (some v) vars = if v == "" then vars else put "RAILPACK_PYTHON_VERSION" v vars

module _ ⦃prisma : Prisma⦄ where
  -- findFirst where { id, project: { userId } }, or "Deployment not found".
  unfoldable pub find_owned : String → String → Act Deployment
  find_owned user_id id = do
    w ← get
    require (prisma.find_first (is_owned w.db user_id id) w.db.deployments)
        (not_found "Deployment not found")

  -- findFirst where { id, userId }, or "Project not found".
  unfoldable pub find_project : String → String → Act Project
  find_project user_id project_id = do
    w ← get
    require (prisma.find_first (is_project_of user_id project_id) w.db.projects)
        (not_found "Project not found")

  -- deployment.create
  unfoldable pub create_deployment : NewDeployment → Act Deployment
  create_deployment n = do
    w ← get
    let table = w.db.deployments
    let row = new_deployment (prisma.uuid (map (λ (d : Deployment). d.id) table)) w.now n
    set_deployments (prisma.create (row ∷ []) table)
    pure row

  -- deployment.update where { id }; the result is the changed row
  unfoldable pub update_deployment : Deployment → (Deployment → Deployment) → Act Deployment
  update_deployment d change = do
    w ← get
    set_deployments (prisma.update (has_id d.id) change w.db.deployments)
    pure (change d)

  unfoldable pub cancel : String → String → Act Deployment
  cancel user_id deployment_id = do
    d ← find_owned user_id deployment_id
    guard (is_in_progress d.status) (
        bad_request
          (append_text "Deployment cannot be cancelled in status: " (status_text d.status)))
    w ← get
    updated ← update_deployment d (λ r. record r {
      status = canceled;
      finished_at = some w.now;
      duration = some (floor_div_sub w.now d.started_at 1000);
    })
    publish_cancel_signal deployment_id
    pure updated

  unfoldable pub update_status : String → String → DeploymentStatus → Act Deployment
  update_status user_id deployment_id status = do
    d ← find_owned user_id deployment_id
    update_deployment d (λ r. record r { status = status })

  unfoldable pub find_one : String → String → Act Deployment
  find_one user_id id = find_owned user_id id

  unfoldable pub find_all : String → Act (List Deployment)
  find_all user_id = do
    w ← get
    pure (
        take 10 (
          prisma.order_desc (λ (d : Deployment). d.started_at)
            (prisma.find_many (λ (d : Deployment). project_of_user w.db user_id d.project_id)
              w.db.deployments)))

  -- the project is counted, not read
  unfoldable pub find_all_by_project : String → String → Act (List Deployment)
  find_all_by_project user_id project_id = do
    w ← get
    let count = length (prisma.find_many (is_project_of user_id project_id) w.db.projects)
    guard (not (nat_eq count 0)) (not_found "Project not found")
    pure (
        take 20 (
          prisma.order_desc (λ (d : Deployment). d.started_at)
            (prisma.find_many (λ (d : Deployment). d.project_id == project_id) w.db.deployments)))

-- The options of `getLogs`: a parsed `limit` is not negative, and `after` is a time.
pub record LogOptions : Type 0 where
  pub source : Option LogSource
  pub after : Option ℕ
  pub limit : Option ℕ

pub record LogPage : Type 0 where
  pub logs : List LogEntry
  pub next_cursor : Option ℕ
  pub has_more : Bool
  pub status : DeploymentStatus
  pub is_live : Bool

abbrev pub source_matches : Option LogSource → LogSource → Bool
source_matches none s = true
source_matches (some t) s = source_text s == source_text t

abbrev pub is_after : Option ℕ → ℕ → Bool
is_after none t = true
is_after (some c) t = ltb c t

abbrev pub log_where : String → LogOptions → LogEntry → Bool
log_where deployment_id o l =
    (l.deployment_id == deployment_id)
    && (source_matches o.source l.source && is_after o.after l.timestamp)

-- `Math.min(options.limit || 200, 500)`.
abbrev pub page_size : Option ℕ → ℕ
page_size none = 200
page_size (some n) = if nat_eq n 0 then 200 else min n 500

module _ ⦃prisma : Prisma⦄ where
  unfoldable pub log_page : List LogEntry → DeploymentStatus → String → LogOptions → LogPage
  log_page table status deployment_id o =
      let size = page_size o.limit in
      let logs = take size (
        prisma.order_asc (λ (l : LogEntry). l.timestamp)
          (prisma.find_many (log_where deployment_id o) table)) in
      record {
        logs = logs;
        next_cursor = Option.map (λ (l : LogEntry). l.timestamp) (last? logs);
        has_more = nat_eq (length logs) size;
        status = status;
        is_live = is_in_progress status;
      }

  unfoldable pub get_logs : String → String → LogOptions → Act LogPage
  get_logs user_id deployment_id o = do
    d ← find_owned user_id deployment_id
    w ← get
    pure (log_page w.db.logs d.status deployment_id o)
