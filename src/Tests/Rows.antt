-- ===== src/Tests/Rows.antt =====
-- A small database: one user with one project, its account, variable, settings and logs.
use code2cloud.Prelude.{ℕ, String, true, false, none, some, List, [], ◌∷◌}
use code2cloud.Schema.{
  User, GitAccount, Project, EnvironmentVariable, Deployment, SystemConfig, LogEntry, building,
  ready, production, preview, manual, pending, build, DeploymentStatus,
}
use code2cloud.Prelude.Int.{pos}
use code2cloud.World.{World}
use code2cloud.Url.{UrlConfig}

instance abbrev pub short_config : UrlConfig
short_config = record { deploy_domain = "code2cloud.app"; hash = "ab12cd" }

abbrev pub a_user : User
a_user = record {
  id = "u1";
  email = "ada@example.org";
  password = none;
  name = some "Ada";
  avatar = none;
  provider = none;
  hashed_refresh_token = none;
}

abbrev pub an_account : GitAccount
an_account = record {
  id = "g1";
  provider = "github";
  provider_id = "77";
  username = "ada";
  avatar_url = none;
  installation_id = some "42";
  access_token = "t";
  refresh_token = none;
  user_id = "u1";
}

abbrev pub a_project : Project
a_project = record {
  id = "p1";
  name = "engine";
  language = "TypeScript";
  framework = "nextjs";
  root_directory = "./";
  install_command = none;
  build_command = none;
  run_command = none;
  output_directory = none;
  python_version = none;
  git_repo_owner = "ada";
  git_repo_name = "engine";
  git_repo_id = 9;
  git_branch = "main";
  git_clone_url = "https://github.com/ada/engine.git";
  git_repo_url = "https://github.com/ada/engine";
  config_changed = false;
  auto_deploy = true;
  online_status = pending;
  user_id = "u1";
  created_at = 10;
  updated_at = 10;
}

abbrev pub a_variable : EnvironmentVariable
a_variable = record {
  id = "v1";
  key = "MODE";
  value = "t:t:fast";
  targets = production ∷ preview ∷ [];
  project_id = "p1";
}

abbrev pub broken_variable : EnvironmentVariable
broken_variable = record a_variable { id = "v2"; value = "fast" }

abbrev pub deployment_in : String → DeploymentStatus → ℕ → Deployment
deployment_in id status time = record {
  id = id;
  status = status;
  environment = production;
  is_success = false;
  commit_hash = "c0ffee";
  commit_message = none;
  commit_author = none;
  branch = "main";
  container_image = none;
  deployment_url = none;
  deployment_region = "us-ashburn-1";
  started_at = time;
  finished_at = none;
  duration = none;
  project_id = "p1";
  initiator_id = some "u1";
  trigger = manual;
}

abbrev pub settings : SystemConfig
settings = record {
  id = "s1";
  user_id = "u1";
  default_region = "us-ashburn-1";
  max_concurrent_builds = 1;
  log_retention_days = pos 1;
  turbo_mode = false;
  global_ttl_minutes = pos 1;
  auto_deploy = true;
  slack_webhook = none;
  email_deploy_failed = true;
  email_deploy_success = true;
}

abbrev pub log_at : String → ℕ → LogEntry
log_at id time = record {
  id = id;
  deployment_id = "d1";
  source = build;
  timestamp = time;
  message = "step";
}

abbrev pub world_with : List Deployment → World
world_with deployments = record {
  db = record {
    users = a_user ∷ [];
    git_accounts = an_account ∷ [];
    projects = a_project ∷ [];
    env_vars = a_variable ∷ [];
    deployments = deployments;
    domains = [];
    configs = settings ∷ [];
    logs = log_at "l1" 5 ∷ log_at "l2" 90000000 ∷ [];
  };
  now = 100000000;
  redis_up = true;
  sent = [];
}

abbrev pub idle_world : World
idle_world = world_with (deployment_in "d1" ready 50 ∷ [])

abbrev pub busy_world : World
busy_world = world_with (deployment_in "d1" ready 50 ∷ deployment_in "d2" building 60 ∷ [])
