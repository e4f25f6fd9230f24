-- ===== src/Tests/Core.antt =====
-- Runs of the requests of users and of the webhook.
use mathlib.Core.Bool.{false≢true}
use code2cloud.Prelude.{
  ◌↔◌, if◌then◌else◌, ◌≡◌, eq_iff, refl, sym, ap, ◌∙◌, true, false, none, some, [], ◌∷◌, inl, inr,
  In,
}
use code2cloud.Schema.{Deployment, building}
use code2cloud.World.{World, done}
use code2cloud.Deployments.{cancel}
use code2cloud.Deployments.Cancel.{CancelOutcome, canceled_row, after_cancel, signalled, cancel_lem}
use code2cloud.DeploymentPage.Controls.{can_cancel, refresh_interval, can_cancel_lem}
use code2cloud.Deployments.Trigger.{create}
use code2cloud.Deployments.Trigger.Steps.{CreateOutcome, create_lem}
use code2cloud.Webhooks.{PushEventPayload}
use code2cloud.Webhooks.Signature.{HookRequest, HookOutcome, handle_webhook, handle_webhook_lem}
use code2cloud.Projects.{remove}
use code2cloud.Projects.Remove.{RemoveOutcome, remove_lem}
use code2cloud.Projects.Create.{CreateProjectDto, create as create_project}
use code2cloud.Projects.Create.Atomic.{CreatedOutcome, create-all_or_nothing}
use code2cloud.Tests.Client.{list_client, escape_cipher, silent_github, plain_hmac}
use code2cloud.Tests.Rows.{short_config, deployment_in, idle_world, busy_world}

create_lem_example : CreateOutcome "u1" "p1" idle_world (create "u1" "p1" idle_world)
create_lem_example = create_lem "u1" "p1" idle_world

cancel_lem_example : CancelOutcome "u1" "d2" busy_world (cancel "u1" "d2" busy_world)
cancel_lem_example = cancel_lem "u1" "d2" busy_world

abbrev running : Deployment
running = deployment_in "d2" building 60

named : (r : Deployment) → In r busy_world.db.deployments → r.id ≡ "d2" → r ≡ running
named r (inl e) same =
    absurd (false≢true ((eq_iff "d2" "d1").1 (sym same ∙ ap (λ (d : Deployment). d.id) e)))
named r (inr (inl e)) same = e
named r (inr (inr none_left)) same = elim none_left [ ]

can_cancel_lem_example :
    ((can_cancel building ≡ true) ↔ (
      cancel "u1" "d2" busy_world
      ≡ done
          (canceled_row busy_world running running)
          (signalled (after_cancel busy_world running) "d2")))
    × (refresh_interval (some building) ≡ (if can_cancel building then 2000 else 0))
can_cancel_lem_example =
    can_cancel_lem "u1" "d2" busy_world running (inr (inl refl)) refl named refl

remove_lem_example : RemoveOutcome "p1" "u1" busy_world (remove "p1" "u1" busy_world)
remove_lem_example = remove_lem "p1" "u1" busy_world

abbrev new_engine : CreateProjectDto
new_engine = record {
  name = "difference";
  language = "TypeScript";
  framework = none;
  root_directory = none;
  install_command = none;
  build_command = none;
  run_command = none;
  output_directory = none;
  python_version = none;
  git_repo_owner = "ada";
  git_repo_name = "difference";
  git_repo_id = 10;
  git_branch = "main";
  git_repo_url = "https://github.com/ada/difference";
  git_clone_url = "https://github.com/ada/difference.git";
  env_vars = record { key = "MODE"; value = "slow" } ∷ [];
}

create-all_or_nothing_example :
    CreatedOutcome "u1" new_engine idle_world (create_project "u1" new_engine idle_world)
create-all_or_nothing_example = create-all_or_nothing "u1" new_engine idle_world

abbrev push_to_main : PushEventPayload
push_to_main = record {
  ref = "refs/heads/main";
  after = "beef";
  deleted = false;
  repo_owner = "ada";
  repo_name = "engine";
  sender_login = "ada";
  installation_id = some 42;
  head_commit = none;
}

abbrev signed_push : HookRequest
signed_push = record {
  raw_body = some "body";
  event = "push";
  signature = some "sha256=secretbody";
  body = push_to_main;
}

handle_webhook_lem_example :
    HookOutcome "secret" signed_push busy_world (handle_webhook "secret" signed_push busy_world)
handle_webhook_lem_example = handle_webhook_lem "secret" signed_push busy_world
