-- ===== src/Webhooks/Trigger.antt =====
-- What a push does for one linked project.

use code2cloud.Prelude.{
  String, ◌≡◌, refl, true, Option, none, some, [], ◌∷◌, ◌++◌, head?, map, if◌then◌else◌, Dict, ◌∙◌,
  ◌==◌, arith,
}
use mathlib.Core.Option
use code2cloud.Schema.{canceled, webhook, Deployment, Domain, SystemConfig, is_in_progress}
use code2cloud.Jobs.{rpush_build, set_cancel}
use code2cloud.Prisma.{Prisma, change_where}
use code2cloud.World.{World, done, fail, thrown, ◌>>=◌, require}
use code2cloud.Encryption.{Crypto}
use code2cloud.Deployments.{has_id, new_deployment, create_deployment}
use code2cloud.Webhooks.{
  ProjectWithRelations, TriggerOptions, cancel_current, decrypted_env, job_of, start_deployment,
  trigger_deployment,
}

-- The world after the current deployment, if it is in progress, is signalled and marked.
abbrev pub canceled_in : World → Deployment → World
canceled_in w d = record w {
  db = record w.db {
    deployments = change_where (has_id d.id) (λ r. record r { status = canceled }) w.db.deployments;
  };
  sent = w.sent ++ set_cancel d.id 300 ∷ [];
}

abbrev pub after_current : World → Option Deployment → World
after_current w none = w
after_current w (some d) = if is_in_progress d.status then canceled_in w d else w

module _ ⦃prisma : Prisma⦄ where
  -- The row that a push adds to a table.
  abbrev pub webhook_row : World → ProjectWithRelations → TriggerOptions → Deployment
  webhook_row w r opts =
      new_deployment (prisma.uuid (map (λ (d : Deployment). d.id) w.db.deployments)) w.now (record {
        project_id = r.project.id;
        initiator_id = r.project.user_id;
        deployment_url = Option.map (λ (d : Domain). d.name) (head? r.domains);
        branch = opts.branch;
        commit = record {
          sha = opts.commit_hash;
          message = opts.commit_message;
          author = some opts.commit_author;
        };
        region =
            prisma.find_first (λ (c : SystemConfig). c.user_id == r.project.user_id) w.db.configs;
        trigger = webhook;
      })

  module _ ⦃crypto : Crypto⦄ where
    -- The world after the row is added and its job is queued.
    abbrev pub started : World → ProjectWithRelations → TriggerOptions → Dict String → World
    started w r opts env = record w {
      db = record w.db { deployments = w.db.deployments ++ webhook_row w r opts ∷ [] };
      sent = w.sent ++ rpush_build (job_of r opts env (webhook_row w r opts)) ∷ [];
    }

  pub cancel_current_up :
      (current : Option Deployment) (w : World)
      → w.redis_up ≡ true
      → cancel_current current w ≡ done tt (after_current w current)
  unfolding cancel_current
  cancel_current_up none w up = refl
  cancel_current_up (some d) w up = ground (
    arith,
    prisma.update_lem (has_id d.id) (λ r. record r { status = canceled }) w.db.deployments,
  )

  redis_up-after_current :
      (current : Option Deployment) (w : World) → (after_current w current).redis_up ≡ w.redis_up
  redis_up-after_current none w = refl
  redis_up-after_current (some d) w = ground arith

  module _ ⦃crypto : Crypto⦄ (r : ProjectWithRelations) (opts : TriggerOptions) where
    start_deployment_up :
        (env : Dict String) (w : World)
        → w.redis_up ≡ true
        → start_deployment r opts env w ≡ done tt (started w r opts env)
    unfolding start_deployment create_deployment
    start_deployment_up env w up =
        ground (arith, prisma.create_lem (webhook_row w r opts ∷ []) w.db.deployments)

    -- While Redis is up and every variable can be decrypted, a push cancels what is in progress,
    -- adds one queued deployment of the pushed commit, and queues its job, in this order.
    pub trigger_deployment-eq-done :
        (env : Dict String) (w : World)
        → w.redis_up ≡ true
        → decrypted_env [] r.env_vars ≡ some env
        → trigger_deployment r opts w
          ≡ done tt (started (after_current w (head? r.deployments)) r opts env)
    unfolding trigger_deployment
    trigger_deployment-eq-done env w up decrypted =
        rw (cancel_current_up (head? r.deployments) w up, ◌>>=◌)
          (rw (decrypted, ◌>>=◌, require)
            (start_deployment_up env _ (redis_up-after_current (head? r.deployments) w ∙ up)))

    -- A variable that cannot be decrypted stops the push for the project after its deployment in
    -- progress was canceled: nothing replaces it.
    pub trigger_deployment-eq-fail :
        (w : World)
        → w.redis_up ≡ true
        → decrypted_env [] r.env_vars ≡ none
        → trigger_deployment r opts w
          ≡ fail (thrown "decrypt") (after_current w (head? r.deployments))
    unfolding trigger_deployment
    trigger_deployment-eq-fail w up broken =
        rw (cancel_current_up (head? r.deployments) w up, ◌>>=◌) (rw (broken, ◌>>=◌, require))
