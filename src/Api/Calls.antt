-- ===== src/Api/Calls.antt =====
-- The routes of the controllers and what each hands to its service. A request that gets here has
-- been parsed and validated; the numbers of a query are read by `parseInt` before.
use code2cloud.Prelude.{ℕ, String, Option, List}
use code2cloud.Schema.{
  Deployment, DeploymentStatus, Project, EnvironmentVariable, Domain, DomainDnsStatus, SystemConfig,
  LogEntry, LogSource,
}
use code2cloud.Prisma.{Prisma}
use code2cloud.Encryption.{Crypto}
use code2cloud.Github.{GithubApi}
use code2cloud.Url.{UrlConfig}
use code2cloud.World.{Act}
use code2cloud.Deployments
use code2cloud.Deployments.{LogOptions, LogPage}
use code2cloud.Deployments.Trigger
use code2cloud.Projects
use code2cloud.Projects.{ProjectView, UpdateProjectDto}
use code2cloud.Projects.Create
use code2cloud.Projects.Create.{CreateProjectDto}
use code2cloud.Envs
use code2cloud.Envs.{SavedVar}
use code2cloud.Domains.{create_domain, find_domains, remove_domain}
use code2cloud.Settings.{UpdateSettingsDto, get_config, update_config}
use code2cloud.Analytics.Overview.{
  GroupBy, Overview, ProjectAnalytics, get_overview, get_project_analytics,
}
use code2cloud.Internal
use code2cloud.Internal.{
  UpdateDeploymentStatusDto, LogEntryDto, UpdateDomainStatusDto, ExpiredDeployment,
}
use code2cloud.Internal.Settings.{ProjectSettings, get_settings_by_project}
use code2cloud.Repositories.Service.{GithubFiles}
use code2cloud.Internal.Token.{InstallationToken, get_installation_token}
use code2cloud.Internal.Notify.{DeploymentNotificationDto, send_deployment_notification}

-- apps/api/src/deployments/deployments.controller.ts
pub data DeploymentsCall : Type 0 → Type 1 where
  deployments_create : (project_id : String) → DeploymentsCall Deployment
  deployments_find_all : DeploymentsCall (List Deployment)
  deployments_find_by_project : (project_id : String) → DeploymentsCall (List Deployment)
  deployments_get_logs : (id : String) → LogOptions → DeploymentsCall LogPage
  deployments_find_one : (id : String) → DeploymentsCall Deployment
  deployments_update_status : (id : String) → DeploymentStatus → DeploymentsCall Deployment
  deployments_cancel : (id : String) → DeploymentsCall Deployment

-- apps/api/src/projects/projects.controller.ts
pub data ProjectsCall : Type 0 → Type 1 where
  projects_create : CreateProjectDto → ProjectsCall ProjectView
  projects_find_all : ProjectsCall (List ProjectView)
  projects_find_one : (id : String) → ProjectsCall ProjectView
  projects_update : (id : String) → UpdateProjectDto → ProjectsCall Project
  projects_remove : (id : String) → ProjectsCall Project

-- apps/api/src/envs/env-vars.controller.ts
pub data EnvVarsCall : Type 0 → Type 1 where
  env_vars_save_all : (project_id : String) → List SavedVar → EnvVarsCall ℕ
  env_vars_find_all : (project_id : String) → EnvVarsCall (List EnvironmentVariable)

-- apps/api/src/domains/domains.controller.ts
pub data DomainsCall : Type 0 → Type 1 where
  domains_create : (project_id name : String) → DomainsCall Domain
  domains_find_all : (project_id : String) → DomainsCall (List Domain)
  domains_remove : (id : String) → DomainsCall Domain

-- apps/api/src/settings/settings.controller.ts
pub data SettingsCall : Type 0 → Type 1 where
  settings_get_settings : SettingsCall SystemConfig
  settings_update_settings : UpdateSettingsDto → SettingsCall SystemConfig

-- apps/api/src/analytics/analytics.controller.ts
pub data AnalyticsCall : Type 0 → Type 1 where
  analytics_get_overview : AnalyticsCall Overview
  analytics_get_project_analytics : (project_id : String) → AnalyticsCall ProjectAnalytics

-- The routes under JwtAuthGuard, by the type of their answer.
pub data UserCall : Type 0 → Type 1 where
  to_deployments : {A : Type 0} → DeploymentsCall A → UserCall A
  to_projects : {A : Type 0} → ProjectsCall A → UserCall A
  to_env_vars : {A : Type 0} → EnvVarsCall A → UserCall A
  to_domains : {A : Type 0} → DomainsCall A → UserCall A
  to_settings : {A : Type 0} → SettingsCall A → UserCall A
  to_analytics : {A : Type 0} → AnalyticsCall A → UserCall A

-- The routes under WorkerApiKeyGuard.
pub data InternalCall : Type 0 → Type 1 where
  report_status : (id : String) → UpdateDeploymentStatusDto → InternalCall Deployment
  add_logs : (id : String) → List LogEntryDto → InternalCall ℕ
  read_logs : (id : String) → Option LogSource → InternalCall (List LogEntry)
  installation_token : (id : String) → InternalCall InstallationToken
  project_settings : (project_id : String) → InternalCall ProjectSettings
  expired_deployments : InternalCall (List ExpiredDeployment)
  cleanup : InternalCall ℕ
  delete_resources : (id : String) → InternalCall Deployment
  set_project_status : (id : String) → DomainDnsStatus → InternalCall Project
  pending_domains : InternalCall (List Domain)
  set_domain_status : (id : String) → UpdateDomainStatusDto → InternalCall Domain
  notify : DeploymentNotificationDto → InternalCall (Unit {0})

module _ ⦃prisma : Prisma⦄ ⦃crypto : Crypto⦄ ⦃files : GithubFiles⦄ where
  unfoldable pub handle_internal : {A : Type 0} → InternalCall A → Act A
  handle_internal (report_status id dto) = Internal.update_deployment_status id dto
  handle_internal (add_logs id logs) = Internal.create_logs id logs
  handle_internal (read_logs id source) = Internal.get_logs id source
  handle_internal (installation_token id) = get_installation_token id
  handle_internal (project_settings project_id) = get_settings_by_project project_id
  handle_internal expired_deployments = Internal.get_expired_deployments
  handle_internal cleanup = Internal.cleanup_logs
  handle_internal (delete_resources id) = Internal.delete_deployment_resources id
  handle_internal (set_project_status id status) = Internal.update_project_status id status
  handle_internal pending_domains = Internal.get_pending_domains
  handle_internal (set_domain_status id dto) = Internal.update_domain_status id dto
  handle_internal (notify dto) = send_deployment_notification dto

module _ ⦃prisma : Prisma⦄ ⦃crypto : Crypto⦄ ⦃github : GithubApi⦄ ⦃config : UrlConfig⦄
    ⦃groups : GroupBy⦄ where
  unfoldable pub handle_deployments : {A : Type 0} → DeploymentsCall A → (user_id : String) → Act A
  handle_deployments (deployments_create project_id) user_id =
      Deployments.Trigger.create user_id project_id
  handle_deployments deployments_find_all user_id = Deployments.find_all user_id
  handle_deployments (deployments_find_by_project project_id) user_id =
      Deployments.find_all_by_project user_id project_id
  handle_deployments (deployments_get_logs id options) user_id =
      Deployments.get_logs user_id id options
  handle_deployments (deployments_find_one id) user_id = Deployments.find_one user_id id
  handle_deployments (deployments_update_status id status) user_id =
      Deployments.update_status user_id id status
  handle_deployments (deployments_cancel id) user_id = Deployments.cancel user_id id

  unfoldable pub handle_projects : {A : Type 0} → ProjectsCall A → (user_id : String) → Act A
  handle_projects (projects_create dto) user_id = Projects.Create.create user_id dto
  handle_projects projects_find_all user_id = Projects.find_all user_id
  handle_projects (projects_find_one id) user_id = Projects.find_one id user_id
  handle_projects (projects_update id dto) user_id = Projects.update id user_id dto
  handle_projects (projects_remove id) user_id = Projects.remove id user_id

  unfoldable pub handle_env_vars : {A : Type 0} → EnvVarsCall A → (user_id : String) → Act A
  handle_env_vars (env_vars_save_all project_id vars) user_id =
      Envs.save_all user_id project_id vars
  handle_env_vars (env_vars_find_all project_id) user_id = Envs.find_all user_id project_id

  unfoldable pub handle_domains : {A : Type 0} → DomainsCall A → (user_id : String) → Act A
  handle_domains (domains_create project_id name) user_id = create_domain user_id project_id name
  handle_domains (domains_find_all project_id) user_id = find_domains user_id project_id
  handle_domains (domains_remove id) user_id = remove_domain user_id id

  unfoldable pub handle_settings : {A : Type 0} → SettingsCall A → (user_id : String) → Act A
  handle_settings settings_get_settings user_id = get_config user_id
  handle_settings (settings_update_settings dto) user_id = update_config user_id dto

  unfoldable pub handle_analytics : {A : Type 0} → AnalyticsCall A → (user_id : String) → Act A
  handle_analytics analytics_get_overview user_id = get_overview user_id
  handle_analytics (analytics_get_project_analytics project_id) user_id =
      get_project_analytics user_id project_id

  unfoldable pub handle : {A : Type 0} → UserCall A → (user_id : String) → Act A
  handle (to_deployments call) user_id = handle_deployments call user_id
  handle (to_projects call) user_id = handle_projects call user_id
  handle (to_env_vars call) user_id = handle_env_vars call user_id
  handle (to_domains call) user_id = handle_domains call user_id
  handle (to_settings call) user_id = handle_settings call user_id
  handle (to_analytics call) user_id = handle_analytics call user_id
