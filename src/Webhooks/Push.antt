-- ===== src/Webhooks/Push.antt =====
-- A push over all projects that are linked to the branch.
use code2cloud.Prelude.{String, ◌≡◌, ◌≢◌, true, some, [], In, Dict}
use code2cloud.Schema.{Deployment}
use code2cloud.Jobs.{Command, BuildJobData, rpush_build}
use code2cloud.Prisma.{Prisma}
use code2cloud.World.{World}
use code2cloud.Encryption.{Crypto}
use code2cloud.Webhooks.{ProjectWithRelations, TriggerOptions, decrypted_env}

-- Nothing that is in the first world is lost in the second: deployments keep their ids, projects
-- and commits, and what was sent stays sent.
pub record Grows (w w' : World) : Type 0 where
  pub up : w'.redis_up ≡ w.redis_up
  pub rows :
      (d : Deployment)
      → In d w.db.deployments
      → (d' : Deployment) × In d' w'.db.deployments
        × (d'.id ≡ d.id)
        × (d'.project_id ≡ d.project_id)
        × (d'.commit_hash ≡ d.commit_hash)
  pub sends : (c : Command) → In c w.sent → In c w'.sent

-- A deployment of the project at the commit that was not in the first world is in the table, and a
-- job that builds this commit of the project was queued for it.
pub record IsDeployed (start w : World) (project_id commit : String) : Type 0 where
  pub row : Deployment
  pub stored : In row w.db.deployments
  pub of_project : row.project_id ≡ project_id
  pub of_commit : row.commit_hash ≡ commit
  pub job : BuildJobData
  pub job_sent : In (rpush_build job) w.sent
  pub job_id : job.deployment_id ≡ row.id
  pub job_project : job.project_id ≡ project_id
  pub job_commit : job.commit_hash ≡ commit
  pub is_new : (d : Deployment) → In d start.db.deployments → d.id ≢ row.id

module _ ⦃prisma : Prisma⦄ ⦃crypto : Crypto⦄ where
  module _ (start : World) (opts : TriggerOptions) where
    -- The project is deployed if it is to be, and can be.
    abbrev Serves : ProjectWithRelations → World → Type 0
    Serves r w =
        r.project.auto_deploy ≡ true
        → (env : Dict String) → decrypted_env [] r.env_vars ≡ some env
        → IsDeployed start w r.project.id opts.commit_hash
