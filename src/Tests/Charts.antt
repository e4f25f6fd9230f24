-- ===== src/Tests/Charts.antt =====
-- The charts of a database.
use code2cloud.Prelude.{◌≡◌, ◌≤◌, ◌*◌, ◌⊎◌, true, false, [], ◌∷◌, ◌==◌, In, inl, inr, arith}
use code2cloud.Schema.{Deployment, Project, ready, failed}
use code2cloud.World.{World, done, fail, not_found}
use code2cloud.Deployments.{project_of_user, is_project_of}
use code2cloud.Analytics.{day}
use code2cloud.Analytics.Overview.{Overview, ProjectAnalytics, get_overview, get_project_analytics}
use code2cloud.Analytics.Charts.{IsCharted, analytics_lem}
use code2cloud.Tests.Client.{list_client}
use code2cloud.Tests.Grouping.{list_groups}
use code2cloud.Tests.Rows.{world_with, deployment_in}

abbrev charted_world : World
charted_world =
    record (world_with (
      deployment_in "d1" ready (50 * day)
      ∷ deployment_in "d2" failed (50 * day)
      ∷ deployment_in "d3" ready (9 * day)
      ∷ [])) { now = 60 * day }

past : (d : Deployment) → In d charted_world.db.deployments → d.started_at ≤ charted_world.now
past d (inl e) = rw e (omega arith)
past d (inr (inl e)) = rw e (omega arith)
past d (inr (inr (inl e))) = rw e (omega arith)
past d (inr (inr (inr h))) = elim h [ ]

analytics_lem_example :
    ((o : Overview) × (get_overview "u1" charted_world ≡ done o charted_world)
      × IsCharted
          (λ d. project_of_user charted_world.db "u1" d.project_id)
          charted_world
          o.deployments_over_time
          o.build_time_trend)
    × (((get_project_analytics "u1" "p1" charted_world
            ≡ fail (not_found "Project not found") charted_world)
          × ((p : Project) → In p charted_world.db.projects → is_project_of "u1" "p1" p ≡ false))
        ⊎ ((p : Project) × (a : ProjectAnalytics) × In p charted_world.db.projects
            × (is_project_of "u1" "p1" p ≡ true)
            × (get_project_analytics "u1" "p1" charted_world ≡ done a charted_world)
            × IsCharted
                (λ d. d.project_id == "p1")
                charted_world
                a.deployments_over_time
                a.build_time_trend))
analytics_lem_example = analytics_lem "u1" "p1" charted_world (omega arith) past
