-- ===== src/Jobs.antt =====
-- apps/api/src/queues/queue.constants.ts: the payloads of the Redis queues, and the commands that
-- the services send to Redis and to the notification channels.
use code2cloud.Prelude.{ℕ, String, Option, List, Dict}

-- `Number(s)` of an installation id, kept as the text that it reads.
pub data InstallationNumber : Type 0 where
  number_of : String → InstallationNumber
  number : ℕ → InstallationNumber

pub record BuildConfig : Type 0 where
  pub install_command : Option String
  pub build_command : Option String
  pub run_command : Option String
  pub output_dir : Option String
  pub framework : String

pub record BuildJobData : Type 0 where
  pub deployment_id : String
  pub project_id : String
  pub project_name : String
  pub git_url : String
  pub installation_id : InstallationNumber
  pub branch : String
  pub commit_hash : String
  pub root_directory : Option String
  pub build_config : BuildConfig
  pub domains : List String
  pub env_vars : Dict String
  pub previous_deployment_id : Option String

pub record ProjectCleanupJobData : Type 0 where
  pub project_id : String
  pub project_name : String
  pub active_deployment_ids : List String

-- RPUSH build-queue, LPUSH project-cleanup-queue, SET cancel:<id> 1 EX <seconds>; a Slack message;
-- an e-mail on success (address, project, url) or failure (address, project).
pub data Command : Type 0 where
  rpush_build : BuildJobData → Command
  lpush_cleanup : ProjectCleanupJobData → Command
  set_cancel : (deployment_id : String) → (seconds : ℕ) → Command
  post_slack : (url text : String) → Command
  mail_success : (to project url : String) → Command
  mail_failure : (to project : String) → Command
