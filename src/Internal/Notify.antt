-- ===== src/Internal/Notify.antt =====
-- apps/api/src/internal/internal.service.ts: the method `sendDeploymentNotification`, with the
-- text and the colour of a message to Slack. A message or a mail that is sent may fail, which the
-- code does not see (`Promise.allSettled`).
pub mod Rules
use mathlib.Core.Option
use Prim.Native.String.{◌++◌ as append_text}
use code2cloud.Prelude.{
  ℕ, String, Bool, true, false, Option, none, some, List, [], ◌∷◌, ◌++◌, ◌==◌, ◌&&◌, truthy,
  or_else, if◌then◌else◌,
}
use code2cloud.Schema.{
  DeploymentStatus, queued, building, deploying, ready, failed, canceled, expired, superseded, User,
  Project, Deployment, SystemConfig, is_ready, is_failed,
}
use code2cloud.Jobs.{Command, post_slack, mail_success, mail_failure}
use code2cloud.Prisma.{Prisma}
use code2cloud.World.{Database, World, Act, done, not_found, pure, ◌>>=◌, ◌>>◌, get, require}
use code2cloud.Encryption.{Crypto, decrypt}
use code2cloud.Deployments.{status_text}
use code2cloud.Internal.{find_deployment}
use code2cloud.Internal.Settings.{clear_webhook}

pub record DeploymentNotificationDto : Type 0 where
  pub deployment_id : String
  pub status : DeploymentStatus
  pub project_name : Option String
  pub deployment_url : Option String
  pub message : Option String

abbrev pub status_emoji : DeploymentStatus → String
status_emoji queued = "⏳"
status_emoji building = "🔨"
status_emoji deploying = "🚀"
status_emoji ready = "✅"
status_emoji failed = "❌"
status_emoji canceled = "🚫"
status_emoji expired = "🧹"
status_emoji superseded = "♻\u{fe0f}"

abbrev pub status_color : DeploymentStatus → String
status_color queued = "#808080"
status_color building = "#FFA500"
status_color deploying = "#0000FF"
status_color ready = "#00FF00"
status_color failed = "#FF0000"
status_color canceled = "#808080"
status_color expired = "#A52A2A"
status_color superseded = "#ff7b00"

-- The message's parts in order; the JSON around them is left out.
unfoldable pub slack_text : DeploymentNotificationDto → String → Option User → String
slack_text dto project_name initiator =
    let name = Option.bind initiator (λ (u : User). u.name) in
    let email = Option.map (λ (u : User). u.email) initiator in
    append_text (status_color dto.status) (
      append_text (status_emoji dto.status) (
        append_text " *Deployment " (
          append_text (status_text dto.status) (
            append_text "*\n*Project:* " (
              append_text (or_else dto.project_name project_name) (
                append_text "*Initiated by:*\n" (
                  append_text (or_else name (or_else email "System")) (
                    append_text "*URL:*\n" (
                      append_text (or_else dto.deployment_url "N/A") (
                        if truthy dto.message
                        then append_text "*Message:* " (or_else dto.message "")
                        else ""))))))))))

-- Who is told, by mail, of which status.
abbrev pub mail_commands :
    DeploymentNotificationDto → String → Option SystemConfig → Option User → List Command
mail_commands dto project_name none initiator = []
mail_commands dto project_name (some c) none = []
mail_commands dto project_name (some c) (some u) =
    if u.email == ""
    then []
    else (if c.email_deploy_success && is_ready dto.status
        then mail_success u.email project_name (or_else dto.deployment_url "") ∷ []
        else [])
      ++ (if c.email_deploy_failed && is_failed dto.status
          then mail_failure u.email project_name ∷ []
          else [])

abbrev pub slack_commands :
    DeploymentNotificationDto → String → Option String → Option User → List Command
slack_commands dto project_name none initiator = []
slack_commands dto project_name (some url) initiator =
    post_slack url (slack_text dto project_name initiator) ∷ []

-- The user who started a deployment.
abbrev pub initiator_of : ⦃prisma : Prisma⦄ → Database → Deployment → Option User
initiator_of ⦃prisma⦄ db d =
    Option.bind d.initiator_id (λ id. prisma.find_first (λ (u : User). u.id == id) db.users)

module _ ⦃prisma : Prisma⦄ ⦃crypto : Crypto⦄ where
  unfoldable pub send_deployment_notification : DeploymentNotificationDto → Act (Unit {0})
  send_deployment_notification dto = do
    d ← find_deployment dto.deployment_id
    w ← get
    p ←
        require (prisma.find_first (λ (p : Project). p.id == d.project_id) w.db.projects)
          (not_found "Deployment not found")
    let config = prisma.find_first (λ (c : SystemConfig). c.user_id == p.user_id) w.db.configs
    let webhook = Option.bind config (λ (c : SystemConfig). clear_webhook c.slack_webhook)
    let initiator = initiator_of w.db d
    λ v. done tt (record v {
      sent =
          v.sent
          ++ (slack_commands dto p.name webhook initiator
              ++ mail_commands dto p.name config initiator);
    })
