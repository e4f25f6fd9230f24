-- ===== src/Tests/Owners.antt =====
-- Runs of the requests on variables and domains.
use code2cloud.Prelude.{In, inl, ◌↔◌, truthy, true, ◌≡◌, refl, some, none, List, [], ◌∷◌}
use code2cloud.Schema.{EnvironmentVariable, SystemConfig, production}
use code2cloud.Envs.{SavedVar, save_all, find_all}
use code2cloud.Envs.ReadBack.{find_all-save_all}
use code2cloud.Envs.Save.{SaveOutcome, contents, save_all_lem}
use code2cloud.Domains.{create_domain}
use code2cloud.Domains.Claims.{ClaimOutcome, create_domain_lem}
use code2cloud.World.{World, done}
use code2cloud.Settings.{UpdateSettingsDto, get_config, update_config}
use code2cloud.Settings.Update.{IsApplied, update_config_lem}
use code2cloud.Auth.{matches, refresh_tokens}
use code2cloud.Auth.Refresh.{IssuedIf, refresh_tokens_lem}
use code2cloud.Tests.Client.{plain_auth, list_client, escape_cipher, nonempty}
use code2cloud.Tests.Rows.{a_project, a_user, idle_world}

abbrev two_vars : List SavedVar
two_vars =
    record { key = "MODE"; value = "t"; targets = production ∷ [] }
    ∷ record { key = "PORT"; value = "t"; targets = [] }
    ∷ []

find_all-save_all_example :
    (w' : World) × (out : List EnvironmentVariable) × (save_all "u1" "p1" two_vars idle_world
      ≡ done 2 w')
    × (find_all "u1" "p1" w' ≡ done out w')
    × ((v : SavedVar) → In v (contents out) ↔ In v two_vars)
find_all-save_all_example =
    find_all-save_all "u1" "p1" two_vars idle_world a_project (inl refl) refl refl
      (nonempty, (nonempty, tt))

save_all_lem_example :
    SaveOutcome "u1" "p1" two_vars idle_world (save_all "u1" "p1" two_vars idle_world)
save_all_lem_example = save_all_lem "u1" "p1" two_vars idle_world

create_domain_lem_example :
    ClaimOutcome "u1" "p1" "engine.example.org" idle_world
      (create_domain "u1" "p1" "engine.example.org" idle_world)
create_domain_lem_example = create_domain_lem "u1" idle_world "p1" "engine.example.org"

abbrev signed_up : World
signed_up = record idle_world {
  db = record idle_world.db {
    users = record a_user { password = some "hsecret"; hashed_refresh_token = some "htoken" } ∷ [];
  };
}

refresh_tokens_lem_example :
    IssuedIf
      (λ u.
        (u.id ≡ "u1")
        × (truthy u.hashed_refresh_token ≡ true)
        × (matches "token" u.hashed_refresh_token ≡ true))
      signed_up
      (refresh_tokens "u1" "token" signed_up)
refresh_tokens_lem_example = refresh_tokens_lem "u1" "token" signed_up

abbrev new_settings : UpdateSettingsDto
new_settings = record {
  default_region = none;
  max_concurrent_builds = some 3;
  log_retention_days = none;
  turbo_mode = some true;
  global_ttl_minutes = none;
  auto_deploy = none;
  slack_webhook = some "t";
  email_deploy_failed = none;
  email_deploy_success = none;
}

update_config_lem_example :
    (r : SystemConfig) × (w' : World) × (update_config "u1" new_settings signed_up ≡ done r w')
    × ((c : SystemConfig) × (get_config "u1" w' ≡ done c w')
        × (c.slack_webhook ≡ some "t")
        × IsApplied new_settings c)
update_config_lem_example = update_config_lem "u1" new_settings "t" refl nonempty refl signed_up
