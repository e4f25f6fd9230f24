-- ===== src/Schema.antt =====
-- apps/api/prisma/schema.prisma: the enums and the models of the database.
-- Times are numbers of milliseconds. The machine* columns of Deployment, which hold their
-- defaults and are not read by the code modelled here, are left out.
use code2cloud.Prelude.{ℕ, String, Bool, true, false, Option, none, List}
use code2cloud.Prelude.Int.{ℤ, pos}

pub data DeploymentStatus : Type 0 where
  queued building deploying ready failed canceled expired superseded : DeploymentStatus

pub data EnvironmentType : Type 0 where
  production preview development : EnvironmentType

pub data DomainDnsStatus : Type 0 where
  active inactive pending verifying error : DomainDnsStatus

pub data DeploymentTrigger : Type 0 where
  manual webhook rollback : DeploymentTrigger

pub data LogSource : Type 0 where
  build runtime system : LogSource

pub record User : Type 0 where
  pub id : String
  pub email : String
  pub password : Option String
  pub name : Option String
  pub avatar : Option String
  pub provider : Option String
  pub hashed_refresh_token : Option String

pub record GitAccount : Type 0 where
  pub id : String
  pub provider : String
  pub provider_id : String
  pub username : String
  pub avatar_url : Option String
  pub installation_id : Option String
  pub access_token : String
  pub refresh_token : Option String
  pub user_id : String

pub record Project : Type 0 where
  pub id : String
  pub name : String
  pub language : String
  pub framework : String
  pub root_directory : String
  pub install_command : Option String
  pub build_command : Option String
  pub run_command : Option String
  pub output_directory : Option String
  pub python_version : Option String
  pub git_repo_owner : String
  pub git_repo_name : String
  pub git_repo_id : ℕ
  pub git_branch : String
  pub git_clone_url : String
  pub git_repo_url : String
  pub config_changed : Bool
  pub auto_deploy : Bool
  pub online_status : DomainDnsStatus
  pub user_id : String
  pub created_at : ℕ
  pub updated_at : ℕ

pub record EnvironmentVariable : Type 0 where
  pub id : String
  pub key : String
  pub value : String
  pub targets : List EnvironmentType
  pub project_id : String

pub record Deployment : Type 0 where
  pub id : String
  pub status : DeploymentStatus
  pub environment : EnvironmentType
  pub is_success : Bool
  pub commit_hash : String
  pub commit_message : Option String
  pub commit_author : Option String
  pub branch : String
  pub container_image : Option String
  pub deployment_url : Option String
  pub deployment_region : String
  pub started_at : ℕ
  pub finished_at : Option ℕ
  pub duration : Option ℤ
  pub project_id : String
  pub initiator_id : Option String
  pub trigger : DeploymentTrigger

pub record Domain : Type 0 where
  pub id : String
  pub name : String
  pub status : DomainDnsStatus
  pub kind : EnvironmentType
  pub error_text : Option String
  pub project_id : String
  pub created_at : ℕ

pub record SystemConfig : Type 0 where
  pub id : String
  pub user_id : String
  pub default_region : String
  pub max_concurrent_builds : ℕ
  pub log_retention_days : ℤ
  pub turbo_mode : Bool
  pub global_ttl_minutes : ℤ
  pub auto_deploy : Bool
  pub slack_webhook : Option String
  pub email_deploy_failed : Bool
  pub email_deploy_success : Bool

-- The row of new settings: the defaults of the schema.
abbrev pub default_config : (id user_id : String) → SystemConfig
default_config id user_id = record {
  id = id;
  user_id = user_id;
  default_region = "us-ashburn-1";
  max_concurrent_builds = 1;
  log_retention_days = pos 1;
  turbo_mode = false;
  global_ttl_minutes = pos 5;
  auto_deploy = true;
  slack_webhook = none;
  email_deploy_failed = true;
  email_deploy_success = true;
}

pub record LogEntry : Type 0 where
  pub id : String
  pub deployment_id : String
  pub source : LogSource
  pub timestamp : ℕ
  pub message : String

-- The states of a deployment that the code groups: ["QUEUED", "BUILDING", "DEPLOYING"], those with
-- "READY" added, and the terminal ones of the worker's reports, ["READY", "FAILED", "CANCELED"].
abbrev pub is_in_progress : DeploymentStatus → Bool
is_in_progress queued = true
is_in_progress building = true
is_in_progress deploying = true
is_in_progress _ = false

abbrev pub is_ready : DeploymentStatus → Bool
is_ready ready = true
is_ready _ = false

abbrev pub is_active : DeploymentStatus → Bool
is_active ready = true
is_active queued = true
is_active building = true
is_active deploying = true
is_active _ = false

abbrev pub is_terminal : DeploymentStatus → Bool
is_terminal ready = true
is_terminal failed = true
is_terminal canceled = true
is_terminal _ = false

abbrev pub is_failed : DeploymentStatus → Bool
is_failed failed = true
is_failed _ = false

abbrev pub is_pending : DomainDnsStatus → Bool
is_pending pending = true
is_pending _ = false

abbrev pub is_production : EnvironmentType → Bool
is_production production = true
is_production _ = false
