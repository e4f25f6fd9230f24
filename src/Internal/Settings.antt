-- ===== src/Internal/Settings.antt =====
-- apps/api/src/internal/internal.service.ts: the method `getSettingsByProject`.
use code2cloud.Prelude.{ℕ, String, Bool, true, false, Option, none, some, ◌==◌, if◌then◌else◌}
use code2cloud.Prelude.Int.{ℤ, pos}
use code2cloud.Schema.{Project, SystemConfig}
use code2cloud.Prisma.{Prisma}
use code2cloud.World.{Act, not_found, pure, ◌>>=◌, get, require}
use code2cloud.Encryption.{Crypto, decrypt}

pub record ProjectSettings : Type 0 where
  pub default_region : String
  pub max_concurrent_builds : ℕ
  pub log_retention_days : ℤ
  pub turbo_mode : Bool
  pub global_ttl_minutes : ℤ
  pub auto_deploy : Bool
  pub email_deploy_failed : Bool
  pub email_deploy_success : Bool
  pub slack_webhook : Option String

module _ ⦃crypto : Crypto⦄ where
  -- The webhook in clear; one that cannot be decrypted is left out.
  abbrev pub clear_webhook : Option String → Option String
  clear_webhook none = none
  clear_webhook (some s) = if s == "" then none else decrypt s

  -- Without settings the defaults hold.
  abbrev pub settings_of : Option SystemConfig → ProjectSettings
  settings_of none = record {
    default_region = "us-ashburn-1";
    max_concurrent_builds = 1;
    log_retention_days = pos 1;
    turbo_mode = false;
    global_ttl_minutes = pos 5;
    auto_deploy = true;
    email_deploy_failed = true;
    email_deploy_success = true;
    slack_webhook = none;
  }
  settings_of (some c) = record {
    default_region = c.default_region;
    max_concurrent_builds = c.max_concurrent_builds;
    log_retention_days = c.log_retention_days;
    turbo_mode = c.turbo_mode;
    global_ttl_minutes = c.global_ttl_minutes;
    auto_deploy = c.auto_deploy;
    email_deploy_failed = c.email_deploy_failed;
    email_deploy_success = c.email_deploy_success;
    slack_webhook = clear_webhook c.slack_webhook;
  }

  unfoldable pub get_settings_by_project : ⦃prisma : Prisma⦄ → String → Act ProjectSettings
  get_settings_by_project ⦃prisma⦄ project_id = do
    w ← get
    p ←
        require (prisma.find_first (λ (p : Project). p.id == project_id) w.db.projects)
          (not_found "Project not found")
    pure (
        settings_of (prisma.find_first (λ (c : SystemConfig). c.user_id == p.user_id) w.db.configs))
