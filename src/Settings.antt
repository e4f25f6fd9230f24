-- ===== src/Settings.antt =====
-- apps/api/src/settings/settings.service.ts: the settings of a user, who exists since the request has
-- passed the guard of users. The webhook is stored encrypted.
pub mod Update
use code2cloud.Prelude.{
  ℕ, String, ◌≡◌, Bool, true, false, not, Option, none, some, List, [], ◌∷◌, ◌==◌, ◌&&◌, map,
  non_empty, is_blank, if◌then◌else◌,
}
use code2cloud.Prelude.Int.{ℤ}
use code2cloud.Schema.{SystemConfig, default_config}
use code2cloud.Prisma.{Prisma}
use code2cloud.World.{World, Act, thrown, pure, ◌>>=◌, ◌>>◌, get, require, set_configs}
use code2cloud.Encryption.{Crypto, encrypt, decrypt}

pub record UpdateSettingsDto : Type 0 where
  pub default_region : Option String
  pub max_concurrent_builds : Option ℕ
  pub log_retention_days : Option ℤ
  pub turbo_mode : Option Bool
  pub global_ttl_minutes : Option ℤ
  pub auto_deploy : Option Bool
  pub slack_webhook : Option String
  pub email_deploy_failed : Option Bool
  pub email_deploy_success : Option Bool

abbrev pub is_of_user : String → SystemConfig → Bool
is_of_user user_id c = c.user_id == user_id

-- A field that is undefined stays.
abbrev pub given_or : {A : Type 0} → Option A → A → A
given_or none old = old
given_or (some new) old = new

abbrev pub webhook_or : Option String → Option String → Option String
webhook_or none old = old
webhook_or (some new) old = some new

-- `{ ...dto, slackWebhook }` as the data of a create or an update.
abbrev pub changed : UpdateSettingsDto → Option String → SystemConfig → SystemConfig
changed dto webhook c = record c {
  default_region = given_or dto.default_region c.default_region;
  max_concurrent_builds = given_or dto.max_concurrent_builds c.max_concurrent_builds;
  log_retention_days = given_or dto.log_retention_days c.log_retention_days;
  turbo_mode = given_or dto.turbo_mode c.turbo_mode;
  global_ttl_minutes = given_or dto.global_ttl_minutes c.global_ttl_minutes;
  auto_deploy = given_or dto.auto_deploy c.auto_deploy;
  slack_webhook = webhook_or webhook c.slack_webhook;
  email_deploy_failed = given_or dto.email_deploy_failed c.email_deploy_failed;
  email_deploy_success = given_or dto.email_deploy_success c.email_deploy_success;
}

module _ ⦃crypto : Crypto⦄ where
  abbrev pub stored_webhook : Option String → Option String
  stored_webhook none = none
  stored_webhook (some s) =
      if not (s == "") && not (is_blank s)
      then some (encrypt 0 s)
      else if s == ""
      then none
      else some s

  -- `if (config.slackWebhook) config.slackWebhook = decrypt(config.slackWebhook)`: none is a throw.
  abbrev pub with_clear_webhook : SystemConfig → Option String → Option SystemConfig
  with_clear_webhook c none = some c
  with_clear_webhook c (some s) = if s == "" then some c else elim (decrypt s) [
    | none ↦ none
    | some clear ↦ some (record c { slack_webhook = some clear })
  ]

module _ ⦃prisma : Prisma⦄ ⦃crypto : Crypto⦄ where
  abbrev pub new_config : String → List SystemConfig → SystemConfig
  new_config user_id t = default_config (prisma.uuid (map (λ (c : SystemConfig). c.id) t)) user_id

  abbrev pub found_or_created : String → Option SystemConfig → Act SystemConfig
  found_or_created user_id (some c) = pure c
  found_or_created user_id none = do
    w ← get
    set_configs (prisma.create (new_config user_id w.db.configs ∷ []) w.db.configs)
    pure (new_config user_id w.db.configs)

  -- What is returned leaves out `id` and `userId`.
  unfoldable pub get_config : String → Act SystemConfig
  get_config user_id = do
    w ← get
    config ← found_or_created user_id (prisma.find_first (is_of_user user_id) w.db.configs)
    require (with_clear_webhook config config.slack_webhook) (thrown "Invalid payload")

  abbrev pub save_config :
      String → UpdateSettingsDto → Option String → Option SystemConfig → Act SystemConfig
  save_config user_id dto webhook none = do
    w ← get
    let row = changed dto (non_empty webhook) (new_config user_id w.db.configs)
    set_configs (prisma.create (row ∷ []) w.db.configs)
    pure row
  save_config user_id dto webhook (some c) = do
    w ← get
    set_configs (prisma.update (is_of_user user_id) (changed dto webhook) w.db.configs)
    pure (changed dto webhook c)

  unfoldable pub update_config : String → UpdateSettingsDto → Act SystemConfig
  update_config user_id dto = do
    w ← get
    save_config user_id dto (stored_webhook dto.slack_webhook)
        (prisma.find_first (is_of_user user_id) w.db.configs)
