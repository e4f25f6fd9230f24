-- ===== src/Tests/Worker.antt =====
-- Runs of the internal API, and of a sequence of events.
use code2cloud.Prelude.{◌≡◌, refl, none, some, [], ◌⊎◌, inl, In}
use code2cloud.Schema.{Deployment, EnvironmentVariable, ready}
use code2cloud.World.{World, world_of}
use code2cloud.Deployments.{find_project, create_deployment}
use code2cloud.Deployments.Trigger.{
  create, check_create, job_of, production_env, record_deployment, touch_project, latest_deployment,
}
use code2cloud.Encryption.{decrypt}
use code2cloud.Encryption.Split.{split_colon}
use code2cloud.Deployments.Trigger.Env.{Gives, IsVersion, job_of_sound}
use code2cloud.Deployments.Trigger.Steps.{manual_row}
use code2cloud.Internal.{
  UpdateDeploymentStatusDto, update_deployment_status, get_expired_deployments,
}
use code2cloud.Internal.Report.{ReportOutcome, update_deployment_status_lem}
use code2cloud.Internal.Expiry.{ExpiryOutcome, get_expired_deployments_lem}
use code2cloud.Internal.Notify.{DeploymentNotificationDto, send_deployment_notification}
use code2cloud.Internal.Notify.Rules.{NotifyOutcome, send_deployment_notification_lem}
use code2cloud.Lifecycle.Requests.{AllOneLive}
use code2cloud.Lifecycle.Reach.{here, next, create_step, Reach-live_unique}
use code2cloud.Tests.Client.{list_client, escape_cipher, silent_github}
use code2cloud.Tests.Rows.{a_project, busy_world, world_with}

abbrev succeeded : UpdateDeploymentStatusDto
succeeded = record {
  status = ready;
  container_image = some "ghcr.io/ada/engine:1";
  deployment_url = none;
}

update_deployment_status_lem_example :
    ReportOutcome "d2" succeeded busy_world (update_deployment_status "d2" succeeded busy_world)
update_deployment_status_lem_example = update_deployment_status_lem "d2" busy_world succeeded

get_expired_deployments_lem_example :
    ExpiryOutcome busy_world busy_world.db.configs (get_expired_deployments busy_world)
get_expired_deployments_lem_example = get_expired_deployments_lem busy_world

abbrev ready_notice : DeploymentNotificationDto
ready_notice = record {
  deployment_id = "d2";
  status = ready;
  project_name = none;
  deployment_url = none;
  message = none;
}

send_deployment_notification_lem_example :
    NotifyOutcome ready_notice busy_world (send_deployment_notification ready_notice busy_world)
send_deployment_notification_lem_example = send_deployment_notification_lem ready_notice busy_world

abbrev new_world : World
new_world = world_with []

abbrev first_row : Deployment
first_row =
    manual_row new_world "u1" a_project
      (record { sha = "HEAD"; message = "Initial deployment"; author = some "System" })

job_of_sound_example :
    ((v : EnvironmentVariable) × In v new_world.db.env_vars
      × (v.project_id ≡ "p1")
      × Gives "MODE" "fast" v)
    ⊎ IsVersion "MODE" "fast" none
unfolding job_of production_env decrypt split_colon
job_of_sound_example =
    job_of_sound "MODE" "fast" new_world a_project "42"
      (record { sha = "HEAD"; message = "Initial deployment"; author = some "System" }) first_row
      refl

nothing_live : AllOneLive new_world
nothing_live q = record { latest = λ d e din. elim din [ ] }

created : In first_row (world_of (create "u1" "p1" new_world)).db.deployments
unfolding create check_create find_project record_deployment create_deployment touch_project
    latest_deployment
created = inl refl

Reach-live_unique_example : first_row ≡ first_row
Reach-live_unique_example =
    Reach-live_unique {w = new_world} {v = world_of (create "u1" "p1" new_world)} nothing_live
      (next here (create_step "u1" "p1" (λ e h. elim h [ ]))) first_row first_row created created
      refl refl refl
