-- ===== src/Lifecycle/Reach.antt =====
-- Any sequence of requests, reports and passing time, from a world with one deployment in progress
-- for each project at most.
use mathlib.Core.Bool.{false≢true}
use code2cloud.Prelude.{ℕ, String, ◌≤◌, ◌≡◌, refl, ap, ◌∙◌, Bool, true, In, eq_iff}
use code2cloud.Schema.{Deployment, Project, is_in_progress}
use code2cloud.Prisma.{Prisma}
use code2cloud.World.{World, Outcome, done, fail, world_of}
use code2cloud.Encryption.{Crypto}
use code2cloud.Github.{GithubApi}
use code2cloud.Deployments.{has_id, cancel}
use code2cloud.Deployments.Trigger.{create}
use code2cloud.Webhooks.{TriggerOptions, relations_of, trigger_deployment}
use code2cloud.Internal.{
  UpdateDeploymentStatusDto, update_deployment_status, delete_deployment_resources,
}
use code2cloud.Internal.Report.{
  ReportOutcome, ReleaseOutcome, release, update_deployment_status_lem,
  delete_deployment_resources_lem,
}
use code2cloud.Lifecycle.OneLive.{IsPast, OneLive-change_where, live_unique}
use code2cloud.Lifecycle.Requests.{
  AllOneLive, create-AllOneLive, cancel-AllOneLive, trigger_deployment-AllOneLive,
}

-- The worker puts no deployment back in progress: it reports such a status on one in progress.
abbrev pub IsForward : String → UpdateDeploymentStatusDto → World → Type 0
IsForward id dto w =
    is_in_progress dto.status ≡ true
    → (r : Deployment) → In r w.db.deployments
    → r.id ≡ id
    → is_in_progress r.status ≡ true

module _ ⦃prisma : Prisma⦄ ⦃crypto : Crypto⦄ ⦃github : GithubApi⦄ where
  -- One event: time passes, or a request is handled, whatever its outcome. A deployment starts
  -- strictly after those of its project that are in the table.
  pub data Step (w : World) : World → Type 0 where
    tick : (later : ℕ) → w.now ≤ later → Step w (record w { now = later })
    redis : (up : Bool) → Step w (record w { redis_up = up })
    create_step :
        (user_id project_id : String)
        → IsPast project_id w.db.deployments w.now
        → Step w (world_of (create user_id project_id w))
    cancel_step : (user_id id : String) → Step w (world_of (cancel user_id id w))
    push_step :
        (p : Project) (opts : TriggerOptions)
        → IsPast p.id w.db.deployments w.now
        → w.redis_up ≡ true
        → Step w (world_of (trigger_deployment (relations_of w.db p) opts w))
    report_step :
        (id : String) (dto : UpdateDeploymentStatusDto)
        → IsForward id dto w
        → Step w (world_of (update_deployment_status id dto w))
    release_step : (id : String) → Step w (world_of (delete_deployment_resources id w))

  pub data Reach (w : World) : World → Type 0 where
    here : Reach w w
    next : {u v : World} → Reach w u → Step u v → Reach w v

  report-AllOneLive :
      (id : String) (dto : UpdateDeploymentStatusDto) (w : World)
      → IsForward id dto w
      → AllOneLive w
      → AllOneLive (world_of (update_deployment_status id dto w))
  report-AllOneLive id dto w forward h =
      keep (update_deployment_status id dto w) (update_deployment_status_lem id w dto)
    where
      keep : (o : Outcome Deployment) → ReportOutcome id dto w o → AllOneLive (world_of o)
      keep (fail x w') (_, e, _) = rw e h
      keep (done x w') (d, _, named, f, reports, _, e) = rw e (λ q.
          OneLive-change_where q w.db.deployments (has_id d.id) f
            (λ r rin hit. record {
              project = ap (λ (x : Deployment). x.project_id) (reports r).others;
              start = ap (λ (x : Deployment). x.started_at) (reports r).others;
              status = λ live.
                  forward (rw (reports r).status at live) r rin ((eq_iff r.id d.id).0 hit ∙ named);
            })
            (h q))

  release-AllOneLive :
      (id : String) (w : World)
      → AllOneLive w
      → AllOneLive (world_of (delete_deployment_resources id w))
  release-AllOneLive id w h =
      keep (delete_deployment_resources id w) (delete_deployment_resources_lem id w)
    where
      keep : (o : Outcome Deployment) → ReleaseOutcome id w o → AllOneLive (world_of o)
      keep (fail x w') (_, e, _) = rw e h
      keep (done d w') (_, _, e) = rw e (λ q.
          OneLive-change_where q w.db.deployments (has_id d.id) (release w.now)
            (λ r rin hit. record {
              project = refl;
              start = refl;
              status = λ live. absurd (false≢true live);
            })
            (h q))

  Step-AllOneLive : {w v : World} → Step w v → AllOneLive w → AllOneLive v
  Step-AllOneLive (tick later _) h = h
  Step-AllOneLive (redis up) h = h
  Step-AllOneLive {w} (create_step u p past) h = create-AllOneLive u p w h past
  Step-AllOneLive {w} (cancel_step u id) h = cancel-AllOneLive u id w h
  Step-AllOneLive {w} (push_step p opts past up) h =
      trigger_deployment-AllOneLive p opts w h past up
  Step-AllOneLive {w} (report_step id dto forward) h = report-AllOneLive id dto w forward h
  Step-AllOneLive {w} (release_step id) h = release-AllOneLive id w h

  pub Reach-AllOneLive : {w v : World} → AllOneLive w → Reach w v → AllOneLive v
  Reach-AllOneLive h here = h
  Reach-AllOneLive h (next r s) = Step-AllOneLive s (Reach-AllOneLive h r)

  -- After any sequence of events from a world where a deployment in progress is the latest of its
  -- project, two deployments of a project that are in progress are one. The events are those of
  -- `Step`: time passes, Redis goes up or down, users create and cancel deployments, a push deploys
  -- while Redis is up, and the worker reports and releases; a deployment is created strictly after
  -- the earlier ones of its project started, and no report puts an ended one back in progress.
  pub Reach-live_unique :
      {w v : World} (h : AllOneLive w) (r : Reach w v) (d e : Deployment)
      → In d v.db.deployments
      → In e v.db.deployments
      → d.project_id ≡ e.project_id
      → is_in_progress d.status ≡ true
      → is_in_progress e.status ≡ true
      → d ≡ e
  Reach-live_unique {w} {v} h r d e din ein same dl el =
      live_unique e.project_id v.db.deployments (Reach-AllOneLive h r e.project_id) d e din ein same
        refl dl el
